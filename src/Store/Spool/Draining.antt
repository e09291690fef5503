-- ===== src/Store/Spool/Draining.antt =====
-- What leaves the queue of a task and direction, and what its statistics count.
use dts.Common.{
  ℕ, zero, suc, String, ◌+◌, ◌≡◌, ◌≢◌, refl, ◌∙◌, ap, List, [], ◌∷◌, none, ok, ◌=s=◌, if◌then◌else◌,
  All, arith, eq_iff, Bool-cases, inl, inr, Option-cases, length,
}
use dts.Domain.{SpoolRecord, SpoolStats}
use dts.Store.Defs.{Store}
use dts.Store.Spool.{
  pending_records, mark_applied, mark_cdc_spool_applied, drop_applied, delete_applied_cdc_spool,
  add_stats, no_stats, cdc_spool_stats, is_pending_of,
}
use dts.Store.Spool.Sequence.{mark_first, mark_applied-first}
use dts.Store.Spool.Queue.{queue}

module _ {E : Type 0} where
  pending_records-drop_applied :
      (task direction task' direction' : String) (n : ℕ) (vs : List (SpoolRecord E))
      → pending_records task direction (drop_applied task' direction' n vs)
        ≡ pending_records task direction vs
  unfolding pending_records drop_applied
  pending_records-drop_applied task direction task' direction' n [] = refl
  pending_records-drop_applied task direction task' direction' zero (v ∷ vs) = refl
  pending_records-drop_applied task direction task' direction' (suc n) (v ∷ vs) = ground (
    arith,
    pending_records-drop_applied task direction task' direction' n vs,
    pending_records-drop_applied task direction task' direction' (suc n) vs,
  )

  -- No two records share an id.
  abbrev pub HasUniqueIds : List (SpoolRecord E) → Type 0
  HasUniqueIds [] = Unit
  HasUniqueIds (v ∷ vs) = All (λ w. w.id ≢ v.id) vs × HasUniqueIds vs

  pending_records-All :
      (P : SpoolRecord E → Type 0) (task direction : String) (vs : List (SpoolRecord E))
      → All P vs
      → All P (pending_records task direction vs)
  unfolding pending_records
  pending_records-All P task direction [] h = tt
  pending_records-All P task direction (v ∷ vs) h =
      elim (Bool-cases (is_pending_of task direction v)) [
        | inl e ↦ rw e (h.0, pending_records-All P task direction vs h.1)
        | inr e ↦ rw e (pending_records-All P task direction vs h.1)
      ]

  mark_first-queue :
      (task direction : String) (at : ℕ) (vs : List (SpoolRecord E)) (v : SpoolRecord E)
      (rest : List (SpoolRecord E))
      → HasUniqueIds vs
      → pending_records task direction vs ≡ v ∷ rest
      → pending_records task direction (mark_first v.id at vs) ≡ rest
  unfolding pending_records
  mark_first-queue task direction at [] v rest h e = cc
  mark_first-queue task direction at (w ∷ vs) v rest h e =
      elim (Bool-cases (is_pending_of task direction w)) [
        | inl f ↦ ground (arith, eq_iff w.id v.id)
        | inr f ↦
            let later : pending_records task direction vs ≡ v ∷ rest = ground arith in
            let other =
              rw later at (pending_records-All (λ u. u.id ≢ w.id) task direction vs h.0) in
            ground (
              arith,
              eq_iff w.id v.id,
              other.0,
              mark_first-queue task direction at vs v rest h.1 later,
            )
      ]

  mark-result :
      (s : Store E) (id : String) (at : ℕ) {t : Store E}
      → mark_cdc_spool_applied s id at ≡ ok t
      → t.cdc_spool ≡ mark_first id at s.cdc_spool
  unfolding mark_cdc_spool_applied
  mark-result s id at {t} e = elim (Option-cases (mark_applied id at s.cdc_spool)) [
    | inl f ↦ cc (rw (f, mark_cdc_spool_applied) at e)
    | inr (spool, f) ↦ ground (arith, mark_applied-first id at s.cdc_spool f)
  ]

  mark_first-All :
      (id : String) (at : ℕ) (name : String) (vs : List (SpoolRecord E))
      → All (λ w. w.id ≢ name) vs
      → All (λ w. w.id ≢ name) (mark_first id at vs)
  mark_first-All id at name [] h = tt
  mark_first-All id at name (v ∷ vs) h = elim (Bool-cases (v.id =s= id)) [
    | inl e ↦ rw e (h.0, h.1)
    | inr e ↦ rw e (h.0, mark_first-All id at name vs h.1)
  ]

  mark_first-HasUniqueIds :
      (id : String) (at : ℕ) (vs : List (SpoolRecord E))
      → HasUniqueIds vs
      → HasUniqueIds (mark_first id at vs)
  mark_first-HasUniqueIds id at [] h = tt
  mark_first-HasUniqueIds id at (v ∷ vs) h = elim (Bool-cases (v.id =s= id)) [
    | inl e ↦ rw e (h.0, h.1)
    | inr e ↦ rw e (mark_first-All id at v.id vs h.0, mark_first-HasUniqueIds id at vs h.1)
  ]

  pub mark-HasUniqueIds :
      (s : Store E) (id : String) (at : ℕ) {t : Store E}
      → HasUniqueIds s.cdc_spool
      → mark_cdc_spool_applied s id at ≡ ok t
      → HasUniqueIds t.cdc_spool
  mark-HasUniqueIds s id at h e =
      rw (mark-result s id at e) (mark_first-HasUniqueIds id at s.cdc_spool h)

  mark_applied-finds :
      (task direction : String) (at : ℕ) (vs : List (SpoolRecord E)) (v : SpoolRecord E)
      (rest : List (SpoolRecord E))
      → pending_records task direction vs ≡ v ∷ rest
      → mark_applied v.id at vs ≢ none
  unfolding pending_records mark_applied
  mark_applied-finds task direction at [] v rest e m = cc
  mark_applied-finds task direction at (w ∷ vs) v rest e m =
      ground (arith, eq_iff w.id v.id, mark_applied-finds task direction at vs v rest)

  -- With unique ids, marking the oldest pending transaction applied succeeds and takes it, and it
  -- alone, off the queue of its task and direction.
  pub mark_queue :
      (s : Store E) (task direction : String) (at : ℕ) (v : SpoolRecord E)
      (rest : List (SpoolRecord E))
      → HasUniqueIds s.cdc_spool
      → queue s task direction ≡ v ∷ rest
      → (t : Store E) × (mark_cdc_spool_applied s v.id at ≡ ok t) × (queue t task direction ≡ rest)
  unfolding mark_cdc_spool_applied
  mark_queue s task direction at v rest h e =
      elim (Option-cases (mark_applied v.id at s.cdc_spool)) [
        | inl f ↦ absurd (mark_applied-finds task direction at s.cdc_spool v rest e f)
        | inr (spool, f) ↦
            let t = record s { cdc_spool = spool } in
            let m : mark_cdc_spool_applied s v.id at ≡ ok t = rw (f, mark_cdc_spool_applied) refl in
            (
              t,
              m,
              ap (pending_records task direction) (mark-result s v.id at m)
                  ∙ mark_first-queue task direction at s.cdc_spool v rest h e,
            )
      ]

  -- Deleting old applied transactions of any task and direction leaves every queue as it was.
  pub delete_queue :
      (s : Store E) (task' direction' : String) (keep : ℕ) (task direction : String)
      → queue (delete_applied_cdc_spool s task' direction' keep) task direction
        ≡ queue s task direction
  unfolding delete_applied_cdc_spool
  delete_queue s task' direction' keep task direction =
      pending_records-drop_applied task direction task' direction' _ s.cdc_spool

  abbrev pub sum_events : List (SpoolRecord E) → ℕ
  sum_events [] = 0
  sum_events (v ∷ vs) = v.event_count + sum_events vs

  abbrev pub sum_bytes : List (SpoolRecord E) → ℕ
  sum_bytes [] = 0
  sum_bytes (v ∷ vs) = v.payload_bytes + sum_bytes vs

  add_stats-sums :
      (task direction : String) (out : SpoolStats) (vs : List (SpoolRecord E))
      → let waiting = pending_records task direction vs in
        let stats = add_stats task direction out vs in
        (stats.pending_transactions ≡ out.pending_transactions + length waiting)
        × (stats.pending_events ≡ out.pending_events + sum_events waiting)
        × (stats.pending_bytes ≡ out.pending_bytes + sum_bytes waiting)
  unfolding add_stats pending_records
  add_stats-sums task direction out [] = omega arith
  add_stats-sums task direction out (v ∷ vs) =
      let next : SpoolStats = record {
        pending_transactions = out.pending_transactions + 1;
        pending_events = out.pending_events + v.event_count;
        pending_bytes = out.pending_bytes + v.payload_bytes;
        first_position = if out.first_position =s= "" then v.position_value else out.first_position;
        last_position = v.position_value;
      } in
      ground (arith, add_stats-sums task direction next vs, add_stats-sums task direction out vs)

  -- `CDCSpoolStats` counts the queue: its transactions, and the sums of their events and bytes.
  pub stats_queue :
      (s : Store E) (task direction : String)
      → let stats = cdc_spool_stats s task direction in
        (stats.pending_transactions ≡ length (queue s task direction))
        × (stats.pending_events ≡ sum_events (queue s task direction))
        × (stats.pending_bytes ≡ sum_bytes (queue s task direction))
  unfolding cdc_spool_stats
  stats_queue s task direction = omega (arith, add_stats-sums task direction no_stats s.cdc_spool)
