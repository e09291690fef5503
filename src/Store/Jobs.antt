-- ===== src/Store/Jobs.antt =====
-- memory.go: the engine jobs, long-running CDC processes that workers claim under a lease.
pub mod Claiming
use dts.Common.{
  ℕ, String, Bool, true, false, ◌+◌, ◌≡◌, List, [], ◌∷◌, map, Option, none, some, Result, ok, err,
  ltb, ◌==◌, not, ◌||◌, ◌&&◌, ◌=s=◌, if◌then◌else◌,
}
use Prim.Native.String.{compare}
use text.Mathlib.Text.{is_lt}
use dts.Common.Keyed.{lookup, insert}
use dts.Domain.{EngineJob, JobStatus}
use dts.Store.Defs.{Store, StoreError, not_found, lease_owner, no_chunk, already_exists}

abbrev pub is_running : JobStatus → Bool
is_running JobStatus.running = true
is_running _ = false

abbrev pub is_pending : JobStatus → Bool
is_pending JobStatus.pending = true
is_pending _ = false

-- `caps[engine]`: the capabilities, and "dts" if one of them is a native runtime.
unfoldable pub has_capability : String → List String → Bool
has_capability engine [] = false
has_capability engine (c ∷ cs) =
    c =s= engine
    || ((c =s= "native" || c =s= "native-mysql-cdc" || c =s= "native-postgres-cdc")
        && "dts" =s= engine)
    || has_capability engine cs

-- The first loop of `ClaimEngineJob`: a running job whose lease has passed is pending again.
unfoldable pub expire : ℕ → EngineJob → EngineJob
expire now j =
    if is_running j.status && not (j.lease_until == 0) && ltb j.lease_until now
    then record j {
      status = JobStatus.pending;
      worker_id = "";
      lease_until = 0;
      retry_count = j.retry_count + 1;
      last_error = "worker lease expired";
      updated_at = now;
    }
    else j

unfoldable pub expire_all : ℕ → List (String × EngineJob) → List (String × EngineJob)
unfolding expire
expire_all now [] = []
expire_all now ((id, j) ∷ jobs) = (id, expire now j) ∷ expire_all now jobs

-- `sort.Strings(ids)`
unfoldable pub insert_id : String → List String → List String
insert_id id [] = id ∷ []
insert_id id (i ∷ is) = if is_lt (compare i id) then i ∷ insert_id id is else id ∷ i ∷ is

unfoldable pub sorted_ids : List (String × EngineJob) → List String
unfolding insert_id
sorted_ids [] = []
sorted_ids ((id, j) ∷ jobs) = insert_id id (sorted_ids jobs)

-- What the claim writes into the job.
unfoldable pub start_job : String → ℕ → ℕ → EngineJob → EngineJob
start_job worker_id lease now j = record j {
  status = JobStatus.running;
  worker_id = worker_id;
  lease_until = now + lease;
  started_at = if j.started_at == 0 then now else j.started_at;
  updated_at = now;
  last_error = "";
}

abbrev pub can_claim : List String → EngineJob → Bool
can_claim capabilities j = is_pending j.status && has_capability j.engine capabilities

module _ {E : Type 0} where
  -- The second loop of `ClaimEngineJob`, over the sorted ids.
  unfoldable pub claim_first :
      List String → List String → String → ℕ → ℕ → Store E → Store E × Result StoreError EngineJob
  unfolding start_job has_capability
  claim_first [] capabilities worker_id lease now s = (s, err no_chunk)
  claim_first (id ∷ ids) capabilities worker_id lease now s =
      let rest = claim_first ids capabilities worker_id lease now s in
      elim (lookup id s.engine_jobs) [
        | none ↦ rest
        | some j ↦
            if can_claim capabilities j
            then (
              record s { engine_jobs = insert id (start_job worker_id lease now j) s.engine_jobs },
              ok (start_job worker_id lease now j),
            )
            else rest
      ]

  -- `ClaimEngineJob` at time `now`.
  unfoldable pub claim_engine_job :
      Store E → String → ℕ → List String → ℕ → Store E × Result StoreError EngineJob
  unfolding expire_all sorted_ids claim_first
  claim_engine_job s worker_id lease capabilities now =
      let jobs = expire_all now s.engine_jobs in
      claim_first (sorted_ids jobs) capabilities worker_id lease now
        (record s { engine_jobs = jobs })

  -- `RenewEngineJobLease` at time `now`.
  unfoldable pub renew_engine_job_lease :
      Store E → String → String → ℕ → ℕ → Result StoreError (Store E)
  renew_engine_job_lease s id worker_id lease now = elim (lookup id s.engine_jobs) [
    | none ↦ err not_found
    | some j ↦
        if not (is_running j.status) || not (j.worker_id =s= worker_id)
        then err lease_owner
        else ok (record s {
          engine_jobs =
              insert id (record j { lease_until = now + lease; updated_at = now }) s.engine_jobs;
        })
  ]

  -- `CreateEngineJob`
  unfoldable pub create_engine_job : Store E → EngineJob → Result StoreError (Store E)
  create_engine_job s j = elim (lookup j.id s.engine_jobs) [
    | none ↦ ok (record s { engine_jobs = insert j.id j s.engine_jobs })
    | some old ↦ err already_exists
  ]

  -- `GetEngineJob`
  unfoldable pub get_engine_job : Store E → String → Result StoreError EngineJob
  get_engine_job s id = elim (lookup id s.engine_jobs) [ none ↦ err not_found | some j ↦ ok j ]

  -- `UpdateEngineJob`
  unfoldable pub update_engine_job : Store E → EngineJob → Result StoreError (Store E)
  update_engine_job s j = elim (lookup j.id s.engine_jobs) [
    | none ↦ err not_found
    | some old ↦ ok (record s { engine_jobs = insert j.id j s.engine_jobs })
  ]

-- `sort.Slice` by the time of the last update, latest first.
unfoldable pub insert_by_update : EngineJob → List EngineJob → List EngineJob
insert_by_update j [] = j ∷ []
insert_by_update j (k ∷ ks) =
    if ltb j.updated_at k.updated_at then k ∷ insert_by_update j ks else j ∷ k ∷ ks

unfoldable pub jobs_of : String → List (String × EngineJob) → List EngineJob
unfolding insert_by_update
jobs_of task_id [] = []
jobs_of task_id ((id, j) ∷ jobs) =
    if task_id =s= "" || j.task_id =s= task_id
    then insert_by_update j (jobs_of task_id jobs)
    else jobs_of task_id jobs

-- `ListEngineJobs`
unfoldable pub list_engine_jobs : {E : Type 0} → Store E → String → List EngineJob
unfolding jobs_of
list_engine_jobs s task_id = jobs_of task_id s.engine_jobs
