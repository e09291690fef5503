-- ===== src/Store/Jobs/Claiming.antt =====
-- What a claim of an engine job takes, and what it leaves alone.
use dts.Common.{
  ℕ, String, true, ◌≤◌, ◌≡◌, ◌≢◌, ◌⊎◌, refl, ap, ◌∙◌, List, [], ◌∷◌, none, some, ok, arith, eq_iff,
  Bool-cases, inl, inr, Option-cases,
}
use dts.Common.Keyed.{lookup, lookup-insert}
use dts.Domain.{EngineJob, JobStatus}
use dts.Store.Defs.{Store}
use dts.Store.Jobs.{
  expire, expire_all, sorted_ids, claim_first, claim_engine_job, can_claim, start_job,
}

lookup-expire_all :
    (now : ℕ) (id : String) (jobs : List (String × EngineJob)) (j : EngineJob)
    → lookup id jobs ≡ some j
    → lookup id (expire_all now jobs) ≡ some (expire now j)
unfolding lookup expire_all
lookup-expire_all now id [] j h = cc
lookup-expire_all now id ((i, k) ∷ jobs) j h = ground (arith, lookup-expire_all now id jobs j)

lookup-expire_all-none :
    (now : ℕ) (id : String) (jobs : List (String × EngineJob))
    → lookup id jobs ≡ none
    → lookup id (expire_all now jobs) ≡ none
unfolding lookup expire_all
lookup-expire_all-none now id [] h = refl
lookup-expire_all-none now id ((i, k) ∷ jobs) h = ground (arith, lookup-expire_all-none now id jobs)

-- A job that no worker may take: not pending, and not running under a lease that has passed.
pub record IsHeld (now : ℕ) (j : EngineJob) : Type 0 where
  pub not_pending : j.status ≢ JobStatus.pending
  pub lease_runs : (j.status ≢ JobStatus.running) ⊎ (j.lease_until ≡ 0) ⊎ (now ≤ j.lease_until)

expire-IsHeld : (now : ℕ) (j : EngineJob) → IsHeld now j → expire now j ≡ j
unfolding expire
expire-IsHeld now j h = ground (arith, h.lease_runs)

module _ {E : Type 0} where
  claim_first-other :
      (ids capabilities : List String) (worker : String) (lease now : ℕ) (s : Store E) (id : String)
      (j : EngineJob)
      → lookup id s.engine_jobs ≡ some j
      → j.status ≢ JobStatus.pending
      → lookup id (claim_first ids capabilities worker lease now s).0.engine_jobs ≡ some j
  unfolding claim_first
  claim_first-other [] capabilities worker lease now s id j h k = h
  claim_first-other (i ∷ ids) capabilities worker lease now s id j h k =
      elim (Option-cases (lookup i s.engine_jobs)) [
        | inl e ↦
            rw (e, claim_first) (claim_first-other ids capabilities worker lease now s id j h k)
        | inr (c, e) ↦ elim (Bool-cases (can_claim capabilities c)) [
          | inl f ↦
              rw (e, claim_first)
                (rw f (
                  ground (
                    arith,
                    eq_iff i id,
                    lookup-insert i id (start_job worker lease now c) s.engine_jobs,
                  )))
          | inr f ↦
              rw (e, claim_first)
                (rw f (claim_first-other ids capabilities worker lease now s id j h k))
        ]
      ]

  -- A claim never takes a job away: of a job that is not pending, and whose lease, if it runs under
  -- one, has not passed, the store holds the same after any worker's claim.
  pub claim_spares_held :
      (s : Store E) (worker : String) (lease : ℕ) (capabilities : List String) (now : ℕ)
      (id : String) {j : EngineJob}
      → lookup id s.engine_jobs ≡ some j
      → IsHeld now j
      → lookup id (claim_engine_job s worker lease capabilities now).0.engine_jobs ≡ some j
  unfolding claim_engine_job
  claim_spares_held s worker lease capabilities now id {j} h held =
      claim_first-other (sorted_ids (expire_all now s.engine_jobs)) capabilities worker lease now
        (record s { engine_jobs = expire_all now s.engine_jobs }) id j
        (lookup-expire_all now id s.engine_jobs j h ∙ rw (expire-IsHeld now j held))
        held.not_pending

  -- A job as it was before the claim, and what the claim made of it.
  pub record IsClaimed (s t : Store E) (worker : String) (lease : ℕ) (capabilities : List String)
      (now : ℕ) (j : EngineJob) : Type 0 where
    pub id : String
    pub old : EngineJob
    pub found : lookup id s.engine_jobs ≡ some old
    pub claimable : can_claim capabilities (expire now old) ≡ true
    pub started : j ≡ start_job worker lease now (expire now old)
    pub stored : lookup id t.engine_jobs ≡ some j

  claim_first-takes :
      (ids capabilities : List String) (worker : String) (lease now : ℕ) (s : Store E) {t : Store E}
      {j : EngineJob}
      → claim_first ids capabilities worker lease now s ≡ (t, ok j)
      → (id : String) × (k : EngineJob) × (lookup id s.engine_jobs ≡ some k)
        × (can_claim capabilities k ≡ true)
        × (j ≡ start_job worker lease now k)
        × (lookup id t.engine_jobs ≡ some j)
  unfolding claim_first
  claim_first-takes [] capabilities worker lease now s h = cc
  claim_first-takes (i ∷ ids) capabilities worker lease now s {t} {j} h =
      elim (Option-cases (lookup i s.engine_jobs)) [
        | inl e ↦ claim_first-takes ids capabilities worker lease now s (rw (e, claim_first) at h)
        | inr (c, e) ↦ elim (Bool-cases (can_claim capabilities c)) [
          | inl f ↦
              let got = rw f at (rw (e, claim_first) at h) in
              (
                i,
                c,
                e,
                f,
                ground (arith, got),
                ground (
                  arith,
                  got,
                  lookup-insert i i (start_job worker lease now c) s.engine_jobs,
                  eq_iff i i,
                ),
              )
          | inr f ↦
              claim_first-takes ids capabilities worker lease now s
                (rw f at (rw (e, claim_first) at h))
        ]
      ]

  -- A claim that returns a job took it from one that was pending, or became so because its lease had
  -- passed, and whose engine the worker has a capability for: it is marked as run by that worker, with
  -- the lease counted from now, and the store holds it so.
  pub claim_takes :
      (s : Store E) (worker : String) (lease : ℕ) (capabilities : List String) (now : ℕ)
      {t : Store E} {j : EngineJob}
      → claim_engine_job s worker lease capabilities now ≡ (t, ok j)
      → IsClaimed s t worker lease capabilities now j
  unfolding claim_engine_job
  claim_takes s worker lease capabilities now {t} {j} h =
      let (id, k, found, claimable, started, stored) =
        claim_first-takes (sorted_ids (expire_all now s.engine_jobs)) capabilities worker lease now
          (record s { engine_jobs = expire_all now s.engine_jobs }) h in
      elim (Option-cases (lookup id s.engine_jobs)) [
        | inl e ↦ cc (lookup-expire_all-none now id s.engine_jobs e)
        | inr (old, e) ↦
            let same : k ≡ expire now old =
              ground (arith, lookup-expire_all now id s.engine_jobs old e) in
            record {
              id = id;
              old = old;
              found = e;
              claimable = rw same at claimable;
              started = started ∙ ap (start_job worker lease now) same;
              stored = stored;
            }
      ]
