-- ===== src/Store/Positions/Compaction.antt =====
-- What the compaction of the checkpoints keeps of each stream.
use dts.Common.{
  ℕ, zero, suc, Bool, true, List, [], ◌∷◌, ◌+◌, ◌≤◌, ◌≡◌, ◌⊎◌, sym, ◌∙◌, ap, subst, ◌||◌, ◌&&◌,
  ◌==◌, ltb, leb, length, map, Bool-cases, inl, inr, arith, eq_iff, Option, none, some, All,
}
use dts.Domain.{CdcPosition}
use dts.Store.Positions.{
  same_stream, Latest, note_latest, find_latest, is_kept, keep_newest, kept_positions,
  compact_cdc_positions_hard_limit,
}

-- `q` is of the stream of `p`, and not older.
abbrev pub IsAsLate : CdcPosition → CdcPosition → Type 0
IsAsLate p q = (same_stream q p ≡ true) × (p.recorded_at ≤ q.recorded_at)

-- Some position of the list is so.
unfoldable pub HasAsLate : CdcPosition → List CdcPosition → Type 0
HasAsLate p [] = ⊥
HasAsLate p (q ∷ qs) = IsAsLate p q ⊎ HasAsLate p qs

IsAsLate-refl : (p : CdcPosition) → IsAsLate p p
IsAsLate-refl p =
    (ground (arith, eq_iff p.task_id p.task_id, eq_iff p.direction p.direction), omega arith)

-- Two positions of the stream of a third are of one stream.
same_stream-euclid :
    (p q r : CdcPosition) → same_stream q p ≡ true → same_stream q r ≡ true → same_stream p r ≡ true
same_stream-euclid p q r h k = ground (
  arith,
  h,
  k,
  eq_iff q.task_id p.task_id,
  eq_iff q.direction p.direction,
  eq_iff q.task_id r.task_id,
  eq_iff q.direction r.direction,
  eq_iff p.task_id r.task_id,
  eq_iff p.direction r.direction,
)

-- Some entry of the map is as late as `p`.
unfoldable Covers : CdcPosition → Latest → Type 0
Covers p [] = ⊥
Covers p ((q, j) ∷ latest) = IsAsLate p q ⊎ Covers p latest

-- The entry is replaced.
abbrev replaces : ℕ → CdcPosition → ℕ → CdcPosition → Bool
replaces i p j q = ltb q.recorded_at p.recorded_at || (q.recorded_at == p.recorded_at && ltb j i)

note_latest-Covers : (i : ℕ) (p : CdcPosition) (latest : Latest) → Covers p (note_latest i p latest)
unfolding note_latest Covers
note_latest-Covers i p [] = inl (IsAsLate-refl p)
note_latest-Covers i p ((q, j) ∷ latest) = elim (Bool-cases (same_stream q p)) [
  | inr e ↦ rw (e, note_latest) (inr (note_latest-Covers i p latest))
  | inl e ↦ elim (Bool-cases (replaces i p j q)) [
    | inl f ↦ rw (e, note_latest) (rw f (inl (IsAsLate-refl p)))
    | inr f ↦ rw (e, note_latest) (rw f (inl (e, ground (arith, f))))
  ]
]

note_latest-keeps :
    (i : ℕ) (p r : CdcPosition) (latest : Latest)
    → Covers r latest
    → Covers r (note_latest i p latest)
unfolding note_latest Covers
note_latest-keeps i p r [] h = absurd h
note_latest-keeps i p r ((q, j) ∷ latest) h = elim (Bool-cases (same_stream q p)) [
  | inr e ↦
      rw (e, note_latest)
        (elim h [ inl k ↦ inl k | inr k ↦ inr (note_latest-keeps i p r latest k) ])
  | inl e ↦ elim (Bool-cases (replaces i p j q)) [
    | inr f ↦ rw (e, note_latest) (rw f h)
    | inl f ↦
        rw (e, note_latest)
          (rw f (elim h [
            | inr k ↦ inr k
            | inl k ↦ inl (same_stream-euclid p q r e k.0, ground (arith, f, k.1))
          ]))
  ]
]

find_latest-keeps :
    (i : ℕ) (ps : List CdcPosition) (r : CdcPosition) (latest : Latest)
    → Covers r latest
    → Covers r (find_latest i ps latest)
unfolding find_latest
find_latest-keeps i [] r latest h = h
find_latest-keeps i (p ∷ ps) r latest h =
    find_latest-keeps (suc i) ps r (note_latest i p latest) (note_latest-keeps i p r latest h)

find_latest-Covers :
    (i : ℕ) (ps : List CdcPosition) (latest : Latest)
    → All (λ p. Covers p (find_latest i ps latest)) ps
unfolding find_latest
find_latest-Covers i [] latest = tt
find_latest-Covers i (p ∷ ps) latest = (
  find_latest-keeps (suc i) ps p (note_latest i p latest) (note_latest-Covers i p latest),
  find_latest-Covers (suc i) ps (note_latest i p latest),
)

-- The position at an index.
unfoldable at? : ℕ → List CdcPosition → Option CdcPosition
at? i [] = none
at? zero (p ∷ ps) = some p
at? (suc i) (p ∷ ps) = at? i ps

-- Every entry stands at its index.
abbrev AreAt : List CdcPosition → Latest → Type 0
AreAt all latest = All (λ entry. at? entry.1 all ≡ some entry.0) latest

note_latest-AreAt :
    (all : List CdcPosition) (i : ℕ) (p : CdcPosition) (latest : Latest)
    → at? i all ≡ some p
    → AreAt all latest
    → AreAt all (note_latest i p latest)
unfolding note_latest
note_latest-AreAt all i p [] h k = (h, tt)
note_latest-AreAt all i p ((q, j) ∷ latest) h k = elim (Bool-cases (same_stream q p)) [
  | inr e ↦ rw (e, note_latest) (k.0, note_latest-AreAt all i p latest h k.1)
  | inl e ↦ elim (Bool-cases (replaces i p j q)) [
    | inl f ↦ rw (e, note_latest) (rw f (h, k.1))
    | inr f ↦ rw (e, note_latest) (rw f k)
  ]
]

find_latest-AreAt :
    (all : List CdcPosition) (i : ℕ) (ps : List CdcPosition) (latest : Latest)
    → ((k : ℕ) → at? (k + i) all ≡ at? k ps)
    → AreAt all latest
    → AreAt all (find_latest i ps latest)
unfolding find_latest at?
find_latest-AreAt all i [] latest h k = k
find_latest-AreAt all i (p ∷ ps) latest h k =
    let here : i ≡ 0 + i = omega arith in
    find_latest-AreAt all (suc i) ps (note_latest i p latest)
      (λ n. ap (λ m. at? m all) (omega arith) ∙ h (suc n))
      (note_latest-AreAt all i p latest (ap (λ m. at? m all) here ∙ h 0) k)

keep_newest-keeps :
    (n limit : ℕ) (keep : List ℕ) (i : ℕ)
    → is_kept i keep ≡ true
    → is_kept i (keep_newest n limit keep) ≡ true
unfolding keep_newest is_kept
keep_newest-keeps zero limit keep i h = h
keep_newest-keeps (suc n) limit keep i h = elim (Bool-cases (ltb (length keep) limit)) [
  | inr e ↦ rw (e, keep_newest) h
  | inl e ↦ elim (Bool-cases (is_kept n keep)) [
    | inl f ↦ rw (e, keep_newest) (rw f (keep_newest-keeps n limit keep i h))
    | inr f ↦
        rw (e, keep_newest) (rw f (keep_newest-keeps n limit (n ∷ keep) i (ground (arith, h))))
  ]
]

kept_positions-HasAsLate :
    (n : ℕ) (ps : List CdcPosition) (keep : List ℕ) (k : ℕ) (p q : CdcPosition)
    → at? k ps ≡ some q
    → is_kept (k + n) keep ≡ true
    → IsAsLate p q
    → HasAsLate p (kept_positions n ps keep)
unfolding kept_positions HasAsLate at?
kept_positions-HasAsLate n [] keep k p q h kept late = cc h
kept_positions-HasAsLate n (r ∷ ps) keep zero p q h kept late =
    let same : r ≡ q = ground (arith, h) in
    let here : is_kept n keep ≡ true = ap (λ m. is_kept m keep) (omega arith) ∙ kept in
    rw (here, kept_positions) (inl (subst (IsAsLate p) (sym same) late))
kept_positions-HasAsLate n (r ∷ ps) keep (suc k) p q h kept late =
    let rest =
      kept_positions-HasAsLate (suc n) ps keep k p q h
        (ap (λ m. is_kept m keep) (omega arith) ∙ kept) late in
    elim (Bool-cases (is_kept n keep)) [
      | inl e ↦ rw (e, kept_positions) (inr rest)
      | inr e ↦ rw (e, kept_positions) rest
    ]

-- Every entry of the map is kept.
entries-kept :
    (latest : Latest) (keep : List ℕ) (all : List CdcPosition) (p : CdcPosition)
    → ((i : ℕ) → is_kept i (map (λ entry. entry.1) latest) ≡ true → is_kept i keep ≡ true)
    → AreAt all latest
    → Covers p latest
    → HasAsLate p (kept_positions 0 all keep)
unfolding Covers is_kept
entries-kept [] keep all p h k c = absurd c
entries-kept ((q, j) ∷ latest) keep all p h k (inl late) =
    kept_positions-HasAsLate 0 all keep j p q k.0
      (ap (λ m. is_kept m keep) (omega arith) ∙ h j (ground arith)) late
entries-kept ((q, j) ∷ latest) keep all p h k (inr c) =
    entries-kept latest keep all p (λ i e. h i (ground (arith, e))) k.1 c

All-implies :
    {P Q : CdcPosition → Type 0} (ps : List CdcPosition)
    → ((p : CdcPosition) → P p → Q p)
    → All P ps
    → All Q ps
All-implies [] f h = tt
All-implies (p ∷ ps) f h = (f p h.0, All-implies ps f h.1)

unchanged : (ps : List CdcPosition) → All (λ p. HasAsLate p ps) ps
unfolding HasAsLate
unchanged [] = tt
unchanged (p ∷ ps) = (inl (IsAsLate-refl p), All-implies ps (λ q h. inr h) (unchanged ps))

-- The compaction never loses the newest checkpoint of a stream: for each position of the list, whatever
-- the limit, the compacted list holds one of the same task and direction that is not older.
pub compact_cdc_positions_hard_limit_lem :
    (ps : List CdcPosition) (limit : ℕ)
    → All (λ p. HasAsLate p (compact_cdc_positions_hard_limit ps limit)) ps
unfolding compact_cdc_positions_hard_limit
compact_cdc_positions_hard_limit_lem ps limit =
    elim (Bool-cases (limit == 0 || leb (length ps) limit)) [
      | inl e ↦ rw (e, compact_cdc_positions_hard_limit) (unchanged ps)
      | inr e ↦
          let indexes = map (λ entry. entry.1) (find_latest 0 ps []) in
          rw (e, compact_cdc_positions_hard_limit)
            (All-implies ps
              (λ p c.
                entries-kept (find_latest 0 ps []) (keep_newest (length ps) limit indexes) ps p
                  (keep_newest-keeps (length ps) limit indexes)
                  (find_latest-AreAt ps 0 ps [] (λ k. ap (λ m. at? m ps) (omega arith)) tt) c)
              (find_latest-Covers 0 ps []))
    ]
