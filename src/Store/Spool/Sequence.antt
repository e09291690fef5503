-- ===== src/Store/Spool/Sequence.antt =====
-- Sequences in the spool: they rise with the order of staging, whatever the store does.
use dts.Common.{
  ℕ, zero, suc, String, ◌+◌, ◌≤◌, ◌<◌, ◌≡◌, List, [], ◌∷◌, ◌++◌, Option, some, ok, ltb, ◌&&◌, ◌=s=◌,
  if◌then◌else◌, All, All-append, All-map, arith, eq_iff, Bool-cases, inl, inr, Option-cases,
}
use dts.Domain.{SpoolRecord, SpoolStatus}
use dts.Store.Defs.{Store}
use dts.Store.Spool.{
  find_id, max_sequence, complete_record, create_cdc_spool, mark_applied, mark_cdc_spool_applied,
  drop_applied, delete_applied_cdc_spool, is_of, is_applied_of,
}

module _ {E : Type 0} where
  -- The second record is of the same task and direction and comes later.
  abbrev pub Precedes : SpoolRecord E → SpoolRecord E → Type 0
  Precedes v w = w.task_id ≡ v.task_id → w.direction ≡ v.direction → v.sequence < w.sequence

  -- Within a task and direction the sequences rise strictly along the list.
  abbrev pub IsSequenced : List (SpoolRecord E) → Type 0
  IsSequenced [] = Unit
  IsSequenced (v ∷ vs) = All (Precedes v) vs × IsSequenced vs

  max_sequence-ge :
      (task direction : String) (m : ℕ) (vs : List (SpoolRecord E))
      → m ≤ max_sequence task direction m vs
  unfolding max_sequence
  max_sequence-ge task direction m [] = omega arith
  max_sequence-ge task direction m (v ∷ vs) =
      ground
        (arith, max_sequence-ge task direction m vs, max_sequence-ge task direction v.sequence vs)

  max_sequence-All :
      (task direction : String) (m : ℕ) (vs : List (SpoolRecord E))
      → All
          (λ v.
            task ≡ v.task_id
            → direction ≡ v.direction
            → v.sequence ≤ max_sequence task direction m vs)
          vs
  unfolding max_sequence
  max_sequence-All task direction m [] = tt
  max_sequence-All task direction m (v ∷ vs) =
      let m' = if is_of task direction v && ltb m v.sequence then v.sequence else m in
      (
        λ p q. ground (
          arith,
          eq_iff v.task_id task,
          eq_iff v.direction direction,
          max_sequence-ge task direction m vs,
          max_sequence-ge task direction v.sequence vs,
        ),
        max_sequence-All task direction m' vs,
      )

  append-IsSequenced :
      (vs : List (SpoolRecord E)) (w : SpoolRecord E)
      → All (λ v. Precedes v w) vs
      → IsSequenced vs
      → IsSequenced (vs ++ (w ∷ []))
  append-IsSequenced [] w h k = (tt, tt)
  append-IsSequenced (v ∷ vs) w h k =
      (All-append _ vs (w ∷ []) k.0 (h.0, tt), append-IsSequenced vs w h.1 k.1)

  create-IsSequenced :
      (json_bytes : List E → Option ℕ) (s : Store E) (v : SpoolRecord E)
      → IsSequenced s.cdc_spool
      → IsSequenced (create_cdc_spool json_bytes s v).0.cdc_spool
  unfolding create_cdc_spool
  create-IsSequenced json_bytes s v h =
      let top = max_sequence v.task_id v.direction 0 s.cdc_spool in
      let w = complete_record json_bytes (top + 1) v in
      elim (Option-cases (find_id v.id s.cdc_spool)) [
        | inl e ↦
            rw (e, create_cdc_spool)
              (append-IsSequenced s.cdc_spool w
                (All-map _ _ (λ u k p q. omega (arith, k p q)) s.cdc_spool
                  (max_sequence-All v.task_id v.direction 0 s.cdc_spool))
                h)
        | inr (old, e) ↦ rw (e, create_cdc_spool) h
      ]

  -- The spool with the first record of an id marked applied.
  abbrev pub mark_first : String → ℕ → List (SpoolRecord E) → List (SpoolRecord E)
  mark_first id at [] = []
  mark_first id at (v ∷ vs) =
      if v.id =s= id
      then record v { status = SpoolStatus.applied; applied_at = at } ∷ vs
      else v ∷ mark_first id at vs

  pub mark_applied-first :
      (id : String) (at : ℕ) (vs : List (SpoolRecord E)) {ws : List (SpoolRecord E)}
      → mark_applied id at vs ≡ some ws
      → ws ≡ mark_first id at vs
  unfolding mark_applied
  mark_applied-first id at [] e = cc
  mark_applied-first id at (v ∷ vs) {ws} e = elim (Option-cases (mark_applied id at vs)) [
    | inl f ↦ ground arith
    | inr (us, f) ↦ ground (arith, mark_applied-first id at vs f)
  ]

  mark_first-Precedes :
      (u : SpoolRecord E) (id : String) (at : ℕ) (vs : List (SpoolRecord E))
      → All (Precedes u) vs
      → All (Precedes u) (mark_first id at vs)
  mark_first-Precedes u id at [] h = tt
  mark_first-Precedes u id at (v ∷ vs) h = elim (Bool-cases (v.id =s= id)) [
    | inl e ↦ rw e (h.0, h.1)
    | inr e ↦ rw e (h.0, mark_first-Precedes u id at vs h.1)
  ]

  mark_first-IsSequenced :
      (id : String) (at : ℕ) (vs : List (SpoolRecord E))
      → IsSequenced vs
      → IsSequenced (mark_first id at vs)
  mark_first-IsSequenced id at [] h = tt
  mark_first-IsSequenced id at (v ∷ vs) h = elim (Bool-cases (v.id =s= id)) [
    | inl e ↦ rw e (h.0, h.1)
    | inr e ↦ rw e (mark_first-Precedes v id at vs h.0, mark_first-IsSequenced id at vs h.1)
  ]

  pub mark-IsSequenced :
      (s : Store E) (id : String) (at : ℕ) {t : Store E}
      → IsSequenced s.cdc_spool
      → mark_cdc_spool_applied s id at ≡ ok t
      → IsSequenced t.cdc_spool
  unfolding mark_cdc_spool_applied
  mark-IsSequenced s id at {t} h e = elim (Option-cases (mark_applied id at s.cdc_spool)) [
    | inl f ↦ cc (rw (f, mark_cdc_spool_applied) at e)
    | inr (spool, f) ↦
        let same : t.cdc_spool ≡ mark_first id at s.cdc_spool =
          ground (arith, mark_applied-first id at s.cdc_spool f) in
        rw same (mark_first-IsSequenced id at s.cdc_spool h)
  ]

  drop_applied-All :
      (P : SpoolRecord E → Type 0) (task direction : String) (n : ℕ) (vs : List (SpoolRecord E))
      → All P vs
      → All P (drop_applied task direction n vs)
  unfolding drop_applied
  drop_applied-All P task direction n [] h = tt
  drop_applied-All P task direction zero (v ∷ vs) h = h
  drop_applied-All P task direction (suc n) (v ∷ vs) h =
      elim (Bool-cases (is_applied_of task direction v)) [
        | inl e ↦ rw e (drop_applied-All P task direction n vs h.1)
        | inr e ↦ rw e (h.0, drop_applied-All P task direction (suc n) vs h.1)
      ]

  drop_applied-IsSequenced :
      (task direction : String) (n : ℕ) (vs : List (SpoolRecord E))
      → IsSequenced vs
      → IsSequenced (drop_applied task direction n vs)
  unfolding drop_applied
  drop_applied-IsSequenced task direction n [] h = tt
  drop_applied-IsSequenced task direction zero (v ∷ vs) h = h
  drop_applied-IsSequenced task direction (suc n) (v ∷ vs) h =
      elim (Bool-cases (is_applied_of task direction v)) [
        | inl e ↦ rw e (drop_applied-IsSequenced task direction n vs h.1)
        | inr e ↦ rw e (
          drop_applied-All (Precedes v) task direction (suc n) vs h.0,
          drop_applied-IsSequenced task direction (suc n) vs h.1,
        )
      ]

-- A step of the spool: staging, marking or deleting.
pub data SpoolStep {E : Type 0} (json_bytes : List E → Option ℕ) (s : Store E)
    : Store E → Type 0 where
  stage :
      (v : SpoolRecord E) {t : Store E}
      → t ≡ (create_cdc_spool json_bytes s v).0
      → SpoolStep json_bytes s t
  mark :
      (id : String) (at : ℕ) {t : Store E}
      → mark_cdc_spool_applied s id at ≡ ok t
      → SpoolStep json_bytes s t
  delete :
      (task direction : String) (keep : ℕ) {t : Store E}
      → t ≡ delete_applied_cdc_spool s task direction keep
      → SpoolStep json_bytes s t

module _ {E : Type 0} where
  -- Every step of the spool (staging any record, marking one applied, deleting old applied ones) keeps
  -- the sequences of each task and direction strictly rising in the order of staging.
  pub SpoolStep-IsSequenced :
      (json_bytes : List E → Option ℕ) {s t : Store E}
      → SpoolStep json_bytes s t
      → IsSequenced s.cdc_spool
      → IsSequenced t.cdc_spool
  unfolding delete_applied_cdc_spool
  SpoolStep-IsSequenced json_bytes {s} (stage v e) h = rw e (create-IsSequenced json_bytes s v h)
  SpoolStep-IsSequenced json_bytes {s} (mark id at e) h = mark-IsSequenced s id at h e
  SpoolStep-IsSequenced json_bytes {s} (delete task direction keep e) h =
      rw e (drop_applied-IsSequenced task direction _ s.cdc_spool h)
