-- ===== src/Store/Spool/Queue.antt =====
-- The spool of a task and direction as a queue of its pending transactions.
use dts.Common.{
  ℕ, String, ◌+◌, ◌≤◌, ◌<◌, ◌≡◌, refl, sym, ◌∙◌, ap, List, [], ◌∷◌, ◌++◌, Option, none, some, ltb,
  ◌||◌, ◌==◌, if◌then◌else◌, All, arith, eq_iff, Bool-cases, inl, inr, Option-cases, take,
}
use dts.Domain.{SpoolRecord, SpoolStatus}
use dts.Store.Defs.{Store}
use dts.Store.Spool.{
  find_id, max_sequence, complete_record, create_cdc_spool, pending_records, insert_by_sequence,
  sort_by_sequence, list_cdc_spool, is_of, is_pending_of,
}
use dts.Store.Spool.Sequence.{IsSequenced, Precedes}

module _ {E : Type 0} where
  -- The abstract view: the pending transactions, oldest first.
  abbrev pub queue : Store E → String → String → List (SpoolRecord E)
  queue s task direction = pending_records task direction s.cdc_spool

  pending_records-append :
      (task direction : String) (vs ws : List (SpoolRecord E))
      → pending_records task direction (vs ++ ws)
        ≡ pending_records task direction vs ++ pending_records task direction ws
  unfolding pending_records
  pending_records-append task direction [] ws = refl
  pending_records-append task direction (v ∷ vs) ws =
      ground (arith, pending_records-append task direction vs ws)

  pending_records-later :
      (task direction : String) (v : SpoolRecord E) (vs : List (SpoolRecord E))
      → v.task_id ≡ task
      → v.direction ≡ direction
      → All (Precedes v) vs
      → All (λ w. v.sequence < w.sequence) (pending_records task direction vs)
  unfolding pending_records
  pending_records-later task direction v [] p q h = tt
  pending_records-later task direction v (w ∷ vs) p q h =
      let others = pending_records-later task direction v vs p q h.1 in
      elim (Bool-cases (is_pending_of task direction w)) [
        | inl e ↦
            let same_task : w.task_id ≡ v.task_id =
              ground (arith, eq_iff w.task_id task, eq_iff w.direction direction) in
            let same_direction : w.direction ≡ v.direction =
              ground (arith, eq_iff w.task_id task, eq_iff w.direction direction) in
            rw e (h.0 same_task same_direction, others)
        | inr e ↦ rw e others
      ]

  insert_by_sequence-first :
      (v : SpoolRecord E) (ws : List (SpoolRecord E))
      → All (λ w. v.sequence < w.sequence) ws
      → insert_by_sequence v ws ≡ v ∷ ws
  unfolding insert_by_sequence
  insert_by_sequence-first v [] h = refl
  insert_by_sequence-first v (w ∷ ws) h = ground (arith, h.0)

  sort_by_sequence-pending :
      (task direction : String) (vs : List (SpoolRecord E))
      → IsSequenced vs
      → sort_by_sequence (pending_records task direction vs) ≡ pending_records task direction vs
  unfolding sort_by_sequence pending_records
  sort_by_sequence-pending task direction [] h = refl
  sort_by_sequence-pending task direction (v ∷ vs) h =
      elim (Bool-cases (is_pending_of task direction v)) [
        | inl e ↦
            let p : v.task_id ≡ task =
              ground (arith, eq_iff v.task_id task, eq_iff v.direction direction) in
            let q : v.direction ≡ direction =
              ground (arith, eq_iff v.task_id task, eq_iff v.direction direction) in
            rw e (
              ap (insert_by_sequence v) (sort_by_sequence-pending task direction vs h.1)
              ∙ insert_by_sequence-first v _ (pending_records-later task direction v vs p q h.0))
        | inr e ↦ rw e (sort_by_sequence-pending task direction vs h.1)
      ]

  -- With rising sequences, `ListCDCSpool` with a limit from 1 to 10000 returns the oldest pending
  -- transactions of the task and direction, in the order of staging, up to the limit.
  pub list-eq-take-queue :
      (s : Store E) (task direction : String) (limit : ℕ)
      → IsSequenced s.cdc_spool
      → 0 < limit
      → limit ≤ 10000
      → list_cdc_spool s task direction limit ≡ take limit (queue s task direction)
  unfolding list_cdc_spool
  list-eq-take-queue s task direction limit h low high =
      let same : (if limit == 0 || ltb 10000 limit then 200 else limit) ≡ limit = ground arith in
      rw same (ap (take limit) (sort_by_sequence-pending task direction s.cdc_spool h))

  -- Staging a pending transaction under a new id puts it, completed with the sequence that is returned,
  -- at the back of the queue of its task and direction, and leaves every other queue alone.
  pub stage_queue :
      (json_bytes : List E → Option ℕ) (s : Store E) (v : SpoolRecord E) (task direction : String)
      → find_id v.id s.cdc_spool ≡ none
      → v.status ≡ SpoolStatus.pending
      → let sequence = (create_cdc_spool json_bytes s v).1 in
        queue (create_cdc_spool json_bytes s v).0 task direction
        ≡ queue s task direction
          ++ (if is_of task direction v then complete_record json_bytes sequence v ∷ [] else [])
  unfolding create_cdc_spool
  stage_queue json_bytes s v task direction fresh waiting =
      let w = complete_record json_bytes (max_sequence v.task_id v.direction 0 s.cdc_spool + 1) v in
      rw (fresh, create_cdc_spool)
        (pending_records-append task direction s.cdc_spool (w ∷ [])
          ∙ ap (λ t. queue s task direction ++ t) (unfold pending_records in ground arith))

  pub find_id-append :
      (id : String) (vs : List (SpoolRecord E)) (w : SpoolRecord E)
      → find_id id vs ≡ none
      → w.id ≡ id
      → find_id id (vs ++ (w ∷ [])) ≡ some w
  unfolding find_id
  find_id-append id [] w h e = ground (arith, eq_iff w.id id)
  find_id-append id (v ∷ vs) w h e = ground (arith, find_id-append id vs w)

  pub create_fresh :
      (json_bytes : List E → Option ℕ) (s : Store E) (v : SpoolRecord E)
      → find_id v.id s.cdc_spool ≡ none
      → create_cdc_spool json_bytes s v ≡ (
        record s {
          cdc_spool =
              s.cdc_spool
              ++ (complete_record json_bytes
                    (max_sequence v.task_id v.direction 0 s.cdc_spool + 1)
                    v
                  ∷ []);
        },
        max_sequence v.task_id v.direction 0 s.cdc_spool + 1,
      )
  unfolding create_cdc_spool
  create_fresh json_bytes s v h = rw (h, create_cdc_spool)

  pub create_known :
      (json_bytes : List E → Option ℕ) (s : Store E) (v old : SpoolRecord E)
      → find_id v.id s.cdc_spool ≡ some old
      → create_cdc_spool json_bytes s v ≡ (s, old.sequence)
  unfolding create_cdc_spool
  create_known json_bytes s v old h = rw (h, create_cdc_spool)

  -- Staging is idempotent: a second delivery of a transaction with the same id changes nothing and
  -- returns the sequence of the first.
  pub stage_twice :
      (json_bytes : List E → Option ℕ) (s : Store E) (v w : SpoolRecord E)
      → w.id ≡ v.id
      → create_cdc_spool json_bytes (create_cdc_spool json_bytes s v).0 w
        ≡ create_cdc_spool json_bytes s v
  unfolding create_cdc_spool
  stage_twice json_bytes s v w e = elim (Option-cases (find_id v.id s.cdc_spool)) [
    | inl f ↦
        let c =
          complete_record json_bytes (max_sequence v.task_id v.direction 0 s.cdc_spool + 1) v in
        rw (create_fresh json_bytes s v f) (
          create_known json_bytes _ w c
            (find_id-append w.id s.cdc_spool c (ap (λ i. find_id i s.cdc_spool) e ∙ f) (sym e)))
    | inr (old, f) ↦
        rw (create_known json_bytes s v old f)
          (create_known json_bytes s w old (ap (λ i. find_id i s.cdc_spool) e ∙ f))
  ]
