-- ===== src/Lifecycle/Jobs/Stopping.antt =====
-- What `requestStopEngineJobs` reaches.
use dts.Common.{
  ℕ, String, Bool, true, false, ◌≡◌, ◌⊎◌, refl, sym, ◌∙◌, subst, List, [], ◌∷◌, some, ok,
  Bool-cases, inl, inr, arith, ltb, ◌=s=◌, ◌&&◌, ◌||◌, eq_iff, All,
}
use dts.Common.Keyed.{lookup, insert, lookup-insert}
use dts.Domain.{EngineJob}
use dts.Store.Jobs.{jobs_of, list_engine_jobs, insert_by_update, update_engine_job}
use dts.Lifecycle.Service.{Service}
use dts.Lifecycle.Jobs.{is_cdc_of, can_stop, stop_job, stop_jobs, request_stop_engine_jobs}

-- Every engine job is stored under its own id, as the store's operations do it.
abbrev pub AreKeyed : List (String × EngineJob) → Type 0
AreKeyed jobs = All (λ entry. entry.1.id ≡ entry.0) jobs

-- A job of the task and direction that is to be stopped.
abbrev pub is_active : String → String → EngineJob → Bool
is_active task_id direction j =
    (task_id =s= "" || j.task_id =s= task_id) && is_cdc_of direction j && can_stop j.status

-- `j` stands in the list.
unfoldable pub In : EngineJob → List EngineJob → Type 0
In j [] = ⊥
In j (k ∷ ks) = (j ≡ k) ⊎ In j ks

In-insert_by_update :
    (j k : EngineJob) (ks : List EngineJob) → (j ≡ k) ⊎ In j ks → In j (insert_by_update k ks)
unfolding insert_by_update In
In-insert_by_update j k [] h = h
In-insert_by_update j k (l ∷ ls) h = elim (Bool-cases (ltb k.updated_at l.updated_at)) [
  | inr e ↦ rw (e, insert_by_update) h
  | inl e ↦
      rw (e, insert_by_update)
        (elim h [
          | inl f ↦ inr (In-insert_by_update j k ls (inl f))
          | inr (inl f) ↦ inl f
          | inr (inr f) ↦ inr (In-insert_by_update j k ls (inr f))
        ])
]

jobs_of-lists :
    (task_id id : String) (j : EngineJob) (jobs : List (String × EngineJob))
    → lookup id jobs ≡ some j
    → (task_id =s= "" || j.task_id =s= task_id) ≡ true
    → In j (jobs_of task_id jobs)
unfolding jobs_of lookup
jobs_of-lists task_id id j [] h k = cc
jobs_of-lists task_id id j ((i, c) ∷ jobs) h k = elim (Bool-cases (i =s= id)) [
  | inl e ↦
      let same : c ≡ j = ground (arith, rw (lookup, e) at h) in
      rw (same, jobs_of) (rw k (In-insert_by_update j j (jobs_of task_id jobs) (inl refl)))
  | inr e ↦
      let rest = jobs_of-lists task_id id j jobs (rw (lookup, e) at h) k in
      elim (Bool-cases (task_id =s= "" || c.task_id =s= task_id)) [
        | inl f ↦ rw (f, jobs_of) (In-insert_by_update j c (jobs_of task_id jobs) (inr rest))
        | inr f ↦ rw (f, jobs_of) rest
      ]
]

lookup-AreKeyed :
    (id : String) (j : EngineJob) (jobs : List (String × EngineJob))
    → AreKeyed jobs
    → lookup id jobs ≡ some j
    → j.id ≡ id
unfolding lookup
lookup-AreKeyed id j [] k h = cc
lookup-AreKeyed id j ((i, c) ∷ jobs) k h =
    ground (arith, eq_iff i id, k.0, lookup-AreKeyed id j jobs k.1)

insert-AreKeyed :
    (j : EngineJob) (jobs : List (String × EngineJob))
    → AreKeyed jobs
    → AreKeyed (insert j.id j jobs)
unfolding insert
insert-AreKeyed j [] k = (refl, tt)
insert-AreKeyed j ((i, c) ∷ jobs) k = elim (Bool-cases (i =s= j.id)) [
  | inl e ↦ rw (e, insert) (refl, k.1)
  | inr e ↦ rw (e, insert) (k.0, insert-AreKeyed j jobs k.1)
]

-- Every active job is still to come in the list.
abbrev AreListed : String → String → List (String × EngineJob) → List EngineJob → Type 0
AreListed task direction jobs js =
    (id : String) (j : EngineJob)
    → lookup id jobs ≡ some j
    → is_active task direction j ≡ true
    → In j js

-- Every listed job is stored under its id.
abbrev AreStored : List (String × EngineJob) → List EngineJob → Type 0
AreStored jobs js = (j : EngineJob) → In j js → (k : EngineJob) × (lookup j.id jobs ≡ some k)

In-insert_by_update_inverse :
    (j k : EngineJob) (ks : List EngineJob) → In j (insert_by_update k ks) → (j ≡ k) ⊎ In j ks
unfolding insert_by_update In
In-insert_by_update_inverse j k [] h = h
In-insert_by_update_inverse j k (l ∷ ls) h = elim (Bool-cases (ltb k.updated_at l.updated_at)) [
  | inr e ↦ rw (insert_by_update, e) at h
  | inl e ↦ elim (rw (insert_by_update, e) at h) [
    | inl f ↦ inr (inl f)
    | inr f ↦ elim (In-insert_by_update_inverse j k ls f) [ inl g ↦ inl g | inr g ↦ inr (inr g) ]
  ]
]

jobs_of-AreStored :
    (task_id : String) (jobs : List (String × EngineJob))
    → AreKeyed jobs
    → AreStored jobs (jobs_of task_id jobs)
unfolding jobs_of lookup In
jobs_of-AreStored task_id [] k j h = absurd h
jobs_of-AreStored task_id ((i, c) ∷ jobs) k j h = elim (Bool-cases (i =s= j.id)) [
  | inl e ↦ (c, rw (e, lookup) refl)
  | inr e ↦
      let later : (jobs_of task_id ((i, c) ∷ jobs) ≡ jobs_of task_id jobs)
          ⊎ ((j ≡ c) ⊎ In j (jobs_of task_id jobs)) =
        elim (Bool-cases (task_id =s= "" || c.task_id =s= task_id)) [
          | inl f ↦
              inr (In-insert_by_update_inverse j c (jobs_of task_id jobs) (rw (jobs_of, f) at h))
          | inr f ↦ inl (rw (f, jobs_of) refl)
        ] in
      let rest : In j (jobs_of task_id jobs) = elim later [
        | inl f ↦ subst (λ js. In j js) f h
        | inr (inl f) ↦ absurd (ground (arith, f, e, k.0, eq_iff i j.id))
        | inr (inr f) ↦ f
      ] in
      let (found, g) = jobs_of-AreStored task_id jobs k.1 j rest in (found, rw (e, lookup) g)
]

listed-task :
    (task direction : String) (j : EngineJob)
    → is_active task direction j ≡ true
    → (task =s= "" || j.task_id =s= task) ≡ true
listed-task task direction j a = elim (Bool-cases (task =s= "" || j.task_id =s= task)) [
  | inl e ↦ e
  | inr e ↦ ground (arith, a, e)
]

stop_job-id : (now : ℕ) (j : EngineJob) → (stop_job now j).id ≡ j.id
stop_job-id now j = ground arith

stop_job-stopped : (now : ℕ) (j : EngineJob) → can_stop (stop_job now j).status ≡ false
stop_job-stopped now j = ground arith

module _ {E : Type 0} where
  -- The service with the job stopped.
  abbrev with_stopped : ℕ → EngineJob → Service E → Service E
  with_stopped now k sv = record sv {
    store = record sv.store {
      engine_jobs = insert (stop_job now k).id (stop_job now k) sv.store.engine_jobs;
    };
  }

  stop_jobs-step :
      (now : ℕ) (direction : String) (k : EngineJob) (js : List EngineJob) (sv : Service E)
      {u : EngineJob}
      → (is_cdc_of direction k && can_stop k.status) ≡ true
      → lookup k.id sv.store.engine_jobs ≡ some u
      → stop_jobs now direction (k ∷ js) sv ≡ stop_jobs now direction js (with_stopped now k sv)
  unfolding stop_jobs update_engine_job
  stop_jobs-step now direction k js sv e f = ground (arith, e, f, stop_job-id now k)

  stop_jobs-skip :
      (now : ℕ) (direction : String) (k : EngineJob) (js : List EngineJob) (sv : Service E)
      → (is_cdc_of direction k && can_stop k.status) ≡ false
      → stop_jobs now direction (k ∷ js) sv ≡ stop_jobs now direction js sv
  unfolding stop_jobs
  stop_jobs-skip now direction k js sv e = ground (arith, e)

  with_stopped-AreListed :
      (now : ℕ) (task direction : String) (k : EngineJob) (js : List EngineJob) (sv : Service E)
      → AreKeyed sv.store.engine_jobs
      → AreListed task direction sv.store.engine_jobs (k ∷ js)
      → AreListed task direction (with_stopped now k sv).store.engine_jobs js
  unfolding In
  with_stopped-AreListed now task direction k js sv keyed listed id j f a =
      let here = lookup-insert (stop_job now k).id id (stop_job now k) sv.store.engine_jobs in
      elim (Bool-cases ((stop_job now k).id =s= id)) [
        | inl e ↦ absurd (ground (arith, sym f ∙ here, e, a, stop_job-stopped now k))
        | inr e ↦
            let old : lookup id sv.store.engine_jobs ≡ some j = ground (arith, sym here ∙ f, e) in
            elim (listed id j old a) [
              | inr g ↦ g
              | inl g ↦
                  let own = lookup-AreKeyed id j sv.store.engine_jobs keyed old in
                  absurd
                    (ground (arith, g, own, e, stop_job-id now k, eq_iff (stop_job now k).id id))
            ]
      ]

  with_stopped-AreStored :
      (now : ℕ) (k : EngineJob) (js : List EngineJob) (sv : Service E)
      → AreStored sv.store.engine_jobs (k ∷ js)
      → AreStored (with_stopped now k sv).store.engine_jobs js
  unfolding In
  with_stopped-AreStored now k js sv stored j h =
      let here = lookup-insert (stop_job now k).id j.id (stop_job now k) sv.store.engine_jobs in
      elim (Bool-cases ((stop_job now k).id =s= j.id)) [
        | inl e ↦ (stop_job now k, here ∙ rw e refl)
        | inr e ↦ let (u, f) = stored j (inr h) in (u, here ∙ rw e f)
      ]

  stop_jobs-stops :
      (now : ℕ) (task direction : String) (js : List EngineJob) (sv : Service E)
      → AreKeyed sv.store.engine_jobs
      → AreListed task direction sv.store.engine_jobs js
      → AreStored sv.store.engine_jobs js
      → ((stop_jobs now direction js sv).0 ≡ ok tt)
        × ((stop_jobs now direction js sv).1.store.migrations ≡ sv.store.migrations)
        × ((stop_jobs now direction js sv).1.runners ≡ sv.runners)
        × AreListed task direction (stop_jobs now direction js sv).1.store.engine_jobs []
  unfolding stop_jobs In
  stop_jobs-stops now task direction [] sv keyed listed stored = (refl, refl, refl, listed)
  stop_jobs-stops now task direction (k ∷ js) sv keyed listed stored =
      elim (Bool-cases (is_cdc_of direction k && can_stop k.status)) [
        | inl e ↦
            let (u, f) = stored k (inl refl) in
            rw (stop_jobs-step now direction k js sv e f) (
              stop_jobs-stops now task direction js (with_stopped now k sv)
                (insert-AreKeyed (stop_job now k) sv.store.engine_jobs keyed)
                (with_stopped-AreListed now task direction k js sv keyed listed)
                (with_stopped-AreStored now k js sv stored))
        | inr e ↦ rw (stop_jobs-skip now direction k js sv e) (
            stop_jobs-stops now task direction js sv keyed
              (λ id j f a. elim (listed id j f a) [
                | inr g ↦ g
                | inl g ↦ absurd (ground (arith, g, a, e))
              ])
              (λ j h. stored j (inr h)))
      ]

  pub request_stop_engine_jobs_lem :
      (now : ℕ) (task direction : String) (sv : Service E)
      → AreKeyed sv.store.engine_jobs
      → let (result, after) = request_stop_engine_jobs now task direction sv in
        (result ≡ ok tt)
        × (after.store.migrations ≡ sv.store.migrations)
        × (after.runners ≡ sv.runners)
        × ((id : String) (j : EngineJob)
            → lookup id after.store.engine_jobs ≡ some j
            → is_active task direction j ≡ false)
  unfolding request_stop_engine_jobs list_engine_jobs In
  request_stop_engine_jobs_lem now task direction sv keyed =
      let (a, b, r, c) =
        stop_jobs-stops now task direction (jobs_of task sv.store.engine_jobs) sv keyed
          (λ id j f a.
            jobs_of-lists task id j sv.store.engine_jobs f (listed-task task direction j a))
          (jobs_of-AreStored task sv.store.engine_jobs keyed) in
      (
        a,
        b,
        r,
        λ id j f. elim (Bool-cases (is_active task direction j)) [
          | inl e ↦ absurd (c id j f e)
          | inr e ↦ e
        ],
      )
