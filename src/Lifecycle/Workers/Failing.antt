-- ===== src/Lifecycle/Workers/Failing.antt =====
-- What `FailEngineJob` makes of the job and of its task.
use dts.Common.{
  ℕ, String, Bool, true, false, ◌≡◌, ◌+◌, refl, sym, ◌∙◌, ap, some, ok, Bool-cases, Option-cases,
  inl, inr, arith, ltb, leb, ◌=s=◌, ◌||◌, eq_iff, if◌then◌else◌,
}
use dts.Common.Keyed.{lookup, insert, lookup-insert}
use dts.Domain.{Status, Task, EngineJob, JobStatus}
use dts.Store.Defs.{Store, update_migration}
use dts.Store.Jobs.{get_engine_job, update_engine_job}
use dts.Lifecycle.Service.{Service, with_task, get_task, get_task-lookup}
use dts.Lifecycle.Control.{fail_task, is_settled}
use dts.Lifecycle.Workers.{fail_engine_job, failed_job, get_job}

get_job-lookup :
    {E : Type 0} (s : Store E) (id : String) (j : EngineJob)
    → get_job id s ≡ ok j
    → lookup id s.engine_jobs ≡ some j
unfolding get_engine_job
get_job-lookup s id j h = elim (Option-cases (lookup id s.engine_jobs)) [
  | inl e ↦ ground (arith, h, e)
  | inr (m, e) ↦ ground (arith, h, e)
]

-- The attempts that a task allows.
abbrev pub allowed_retries : Task → ℕ
allowed_retries m = if ltb 0 m.max_retries then m.max_retries else 3

-- The job after a failed run, as `again` says that it is to run again or not.
abbrev pub job_after : ℕ → String → Bool → EngineJob → EngineJob
job_after now error again j = record j {
  status = if again then JobStatus.pending else JobStatus.failed;
  worker_id = "";
  lease_until = 0;
  retry_count = j.retry_count + 1;
  last_error = error;
  updated_at = now;
  finished_at = if again then j.finished_at else now;
}

failed_job-again :
    (now : ℕ) (error : String) (max : ℕ) (j : EngineJob)
    → failed_job now error max j ≡ job_after now error (ltb j.retry_count max) j
unfolding failed_job
failed_job-again now error max j = elim (Bool-cases (ltb j.retry_count max)) [
  | inl e ↦ ground (arith, e)
  | inr e ↦ ground (arith, e)
]

module _ {E : Type 0} where
  abbrev with_job : EngineJob → Service E → Service E
  with_job j sv = record sv {
    store = record sv.store { engine_jobs = insert j.id j sv.store.engine_jobs };
  }

  fail_retried :
      (now : ℕ) (cause worker id error : String) (sv : Service E) (j : EngineJob) (m : Task)
      → get_job id sv.store ≡ ok j
      → lookup j.id sv.store.engine_jobs ≡ some j
      → (j.worker_id =s= worker) ≡ true
      → get_task j.task_id sv.store ≡ ok m
      → leb (j.retry_count + 1) (allowed_retries m) ≡ true
      → fail_engine_job now cause worker id error sv
        ≡ (ok tt, with_job (failed_job now error (allowed_retries m) j) sv)
  unfolding fail_engine_job update_engine_job failed_job
  fail_retried now cause worker id error sv j m f g w t e = ground (arith, f, g, w, t, e)

  -- The service with the task failed, unless it is settled.
  abbrev after_failure : ℕ → String → Task → Service E → Service E
  after_failure now cause m sv =
      if is_settled m.status
      then sv
      else with_task now (record m { status = Status.failed; last_error = cause }) sv

  fail_task-result :
      (now : ℕ) (id cause : String) (sv : Service E) (m : Task)
      → get_task id sv.store ≡ ok m
      → lookup m.id sv.store.migrations ≡ some m
      → fail_task now id cause sv ≡ (ok tt, after_failure now cause m sv)
  unfolding fail_task update_migration
  fail_task-result now id cause sv m f g = elim (Bool-cases (is_settled m.status)) [
    | inl e ↦ ground (arith, f, g, e)
    | inr e ↦ ground (arith, f, g, e)
  ]

  after_failure-jobs :
      (now : ℕ) (cause : String) (m : Task) (sv : Service E)
      → (after_failure now cause m sv).store.engine_jobs ≡ sv.store.engine_jobs
  after_failure-jobs now cause m sv = elim (Bool-cases (is_settled m.status)) [
    | inl e ↦ rw e refl
    | inr e ↦ rw e refl
  ]

  fail_given_up :
      (now : ℕ) (cause worker id error : String) (sv : Service E) (j : EngineJob) (m : Task)
      → get_job id sv.store ≡ ok j
      → lookup j.id sv.store.engine_jobs ≡ some j
      → (j.worker_id =s= worker) ≡ true
      → get_task j.task_id sv.store ≡ ok m
      → get_task m.id sv.store ≡ ok m
      → lookup m.id sv.store.migrations ≡ some m
      → leb (j.retry_count + 1) (allowed_retries m) ≡ false
      → fail_engine_job now cause worker id error sv ≡ (
        ok tt,
        with_job (failed_job now error (allowed_retries m) j) (after_failure now cause m sv),
      )
  unfolding fail_engine_job update_engine_job failed_job
  fail_given_up now cause worker id error sv j m f g w t t' l e = ground (
    arith,
    f,
    g,
    w,
    t,
    e,
    fail_task-result now m.id cause sv m t' l,
    after_failure-jobs now cause m sv,
  )

  stored-job :
      (j : EngineJob) (sv : Service E) → lookup j.id (with_job j sv).store.engine_jobs ≡ some j
  stored-job j sv = ground (arith, eq_iff j.id j.id, lookup-insert j.id j.id j sv.store.engine_jobs)

  after_failure-task :
      (now : ℕ) (cause : String) (m : Task) (sv : Service E)
      → lookup m.id sv.store.migrations ≡ some m
      → lookup m.id (after_failure now cause m sv).store.migrations
        ≡ some (
            if is_settled m.status
            then m
            else record m { status = Status.failed; last_error = cause; updated_at = now })
  after_failure-task now cause m sv h = elim (Bool-cases (is_settled m.status)) [
    | inl e ↦ rw e h
    | inr e ↦ ground (
      arith,
      e,
      eq_iff m.id m.id,
      lookup-insert m.id m.id
          (record m { status = Status.failed; last_error = cause; updated_at = now })
          sv.store.migrations,
    )
  ]

  -- When the worker that runs an engine job reports a failure, and job and task are stored under their
  -- own ids, `FailEngineJob` succeeds and nobody runs the job any more. With attempts left it is
  -- pending again, whatever its status was, a requested stop included, and the task is untouched.
  -- Without, it is failed, and so is the task, unless that is CANCELLED, PAUSED or FINISHED.
  pub fail_engine_job_lem :
      (now : ℕ) (cause worker id error : String) (sv : Service E) (j : EngineJob) (m : Task)
      → get_job id sv.store ≡ ok j
      → j.id ≡ id
      → j.worker_id ≡ worker
      → get_task j.task_id sv.store ≡ ok m
      → m.id ≡ j.task_id
      → let (result, after) = fail_engine_job now cause worker id error sv in
        let again = ltb j.retry_count (allowed_retries m) in
        (result ≡ ok tt)
        × (lookup id after.store.engine_jobs ≡ some (job_after now error again j))
        × (lookup m.id after.store.migrations
            ≡ some (
                if again || is_settled m.status
                then m
                else record m { status = Status.failed; last_error = cause; updated_at = now }))
  fail_engine_job_lem now cause worker id error sv j m f own w t task_own =
      let job = failed_job now error (allowed_retries m) j in
      let g = ap (λ i. lookup i sv.store.engine_jobs) own ∙ get_job-lookup sv.store id j f in
      let l =
        ap (λ i. lookup i sv.store.migrations) task_own ∙ get_task-lookup sv.store j.task_id m t in
      let w' : (j.worker_id =s= worker) ≡ true = ground (arith, w, eq_iff j.worker_id worker) in
      let kept : job.id ≡ id =
        ap (λ k. k.id) (failed_job-again now error (allowed_retries m) j) ∙ own in
      let held : (after : Service E)
          → lookup id (with_job job after).store.engine_jobs
            ≡ some (job_after now error (ltb j.retry_count (allowed_retries m)) j) =
        λ after.
          ap (λ i. lookup i (with_job job after).store.engine_jobs) (sym kept)
          ∙ stored-job job after
          ∙ ap (λ k. some k) (failed_job-again now error (allowed_retries m) j) in
      elim (Bool-cases (ltb j.retry_count (allowed_retries m))) [
        | inl e ↦
            let run = fail_retried now cause worker id error sv j m f g w' t (ground (arith, e)) in
            (
              ap (λ r. r.0) run,
              ap (λ r. lookup id r.1.store.engine_jobs) run ∙ held sv,
              ap (λ r. lookup m.id r.1.store.migrations) run ∙ rw e l,
            )
        | inr e ↦
            let t' = ap (λ i. get_task i sv.store) task_own ∙ t in
            let run =
              fail_given_up now cause worker id error sv j m f g w' t t' l (ground (arith, e)) in
            (
              ap (λ r. r.0) run,
              ap (λ r. lookup id r.1.store.engine_jobs) run ∙ held (after_failure now cause m sv),
              ap (λ r. lookup m.id r.1.store.migrations) run
                  ∙ rw e (after_failure-task now cause m sv l),
            )
      ]
