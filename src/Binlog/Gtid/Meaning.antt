-- ===== src/Binlog/Gtid/Meaning.antt =====
-- gtid.go: normalising intervals keeps the transactions that they stand for.
use mathlib.Core.List.{reverse, reverse-append}
use dts.Common.{
  ℕ, ◌≤◌, ◌≡◌, refl, ◌∙◌, ap, Bool, true, false, ◌&&◌, ◌||◌, leb, List, [], ◌∷◌, ◌++◌, All, All-map,
  arith, Bool-cases, inl, inr,
}
use dts.Binlog.Gtid.{
  Interval, less, insert_sorted, sort_intervals, extend, merge_loop, normalize_intervals,
}

abbrev pub within : ℕ → Interval → Bool
within gno i = leb i.start gno && leb gno i.end

-- One of the intervals holds the transaction.
unfoldable pub covers : ℕ → List Interval → Bool
covers gno [] = false
covers gno (i ∷ is) = within gno i || covers gno is

-- `ParseGTIDSet` lets no other interval in.
abbrev pub IsProper : Interval → Type 0
IsProper i = i.start ≤ i.end

covers-insert_sorted :
    (gno : ℕ) (i : Interval) (is : List Interval)
    → covers gno (insert_sorted i is) ≡ covers gno (i ∷ is)
unfolding covers insert_sorted
covers-insert_sorted gno i [] = refl
covers-insert_sorted gno i (j ∷ js) = ground (arith, covers-insert_sorted gno i js)

covers-sort_intervals :
    (gno : ℕ) (is : List Interval) → covers gno (sort_intervals is) ≡ covers gno is
unfolding covers sort_intervals
covers-sort_intervals gno [] = refl
covers-sort_intervals gno (i ∷ is) =
    covers-insert_sorted gno i (sort_intervals is)
    ∙ ap (λ rest. within gno i || rest) (covers-sort_intervals gno is)

-- Proper intervals, whose starts do not fall.
abbrev pub IsRising : List Interval → Type 0
IsRising [] = Unit
IsRising (i ∷ is) = IsProper i × All (λ j. i.start ≤ j.start) is × IsRising is

All-insert_sorted :
    (P : Interval → Type 0) (i : Interval) (is : List Interval)
    → P i
    → All P is
    → All P (insert_sorted i is)
unfolding insert_sorted
All-insert_sorted P i [] here there = (here, tt)
All-insert_sorted P i (j ∷ js) here there = elim (Bool-cases (less j i)) [
  | inl e ↦ rw e (there.0, All-insert_sorted P i js here there.1)
  | inr e ↦ rw e (here, there)
]

pub All-sort_intervals :
    (P : Interval → Type 0) (is : List Interval) → All P is → All P (sort_intervals is)
unfolding sort_intervals
All-sort_intervals P [] all = tt
All-sort_intervals P (i ∷ is) all =
    All-insert_sorted P i (sort_intervals is) all.0 (All-sort_intervals P is all.1)

less-start : (i j : Interval) → less i j ≡ true → i.start ≤ j.start
unfolding less
less-start i j e = ground arith

not-less-start : (i j : Interval) → less i j ≡ false → j.start ≤ i.start
unfolding less
not-less-start i j e = ground arith

insert_sorted-IsRising :
    (i : Interval) (is : List Interval) → IsProper i → IsRising is → IsRising (insert_sorted i is)
unfolding insert_sorted
insert_sorted-IsRising i [] proper rising = (proper, tt, tt)
insert_sorted-IsRising i (j ∷ js) proper (proper', later, rising) = elim (Bool-cases (less j i)) [
  | inl e ↦ rw e (
    proper',
    All-insert_sorted (λ k. j.start ≤ k.start) i js (less-start j i e) later,
    insert_sorted-IsRising i js proper rising,
  )
  | inr e ↦
      let before = not-less-start j i e in
      rw e (
        proper,
        (before, All-map _ _ (λ k after. omega (arith, before, after)) js later),
        (proper', later, rising),
      )
]

pub sort_intervals-IsRising : (is : List Interval) → All IsProper is → IsRising (sort_intervals is)
unfolding sort_intervals
sort_intervals-IsRising [] all = tt
sort_intervals-IsRising (i ∷ is) all =
    insert_sorted-IsRising i (sort_intervals is) all.0 (sort_intervals-IsRising is all.1)

-- What the loop has merged so far: its last interval is proper and starts no later than the next one.
abbrev pub TopBefore : ℕ → List Interval → Type 0
TopBefore at [] = Unit
TopBefore at (top ∷ merged) = IsProper top × (top.start ≤ at)

covers-extend :
    (gno : ℕ) (merged : List Interval) (cur : Interval)
    → TopBefore cur.start merged
    → IsProper cur
    → covers gno (extend merged cur) ≡ (covers gno merged || within gno cur)
unfolding covers extend
covers-extend gno [] cur before proper = ground arith
covers-extend gno (top ∷ merged) cur before proper = ground arith

pub extend-TopBefore :
    (merged : List Interval) (cur : Interval)
    → TopBefore cur.start merged
    → IsProper cur
    → TopBefore cur.start (extend merged cur)
unfolding extend
extend-TopBefore [] cur before proper = ground arith
extend-TopBefore (top ∷ merged) cur before proper = ground arith

pub TopBefore-le :
    (at later : ℕ) (merged : List Interval)
    → at ≤ later
    → TopBefore at merged
    → TopBefore later merged
TopBefore-le at later [] le before = tt
TopBefore-le at later (top ∷ merged) le before = (before.0, omega (arith, le, before.1))

-- The loop's start: what is merged stands before every interval left.
abbrev pub AllBefore : List Interval → List Interval → Type 0
AllBefore merged [] = Unit
AllBefore merged (cur ∷ rest) = TopBefore cur.start merged

pub AllBefore-extend :
    (merged : List Interval) (cur : Interval) (rest : List Interval)
    → TopBefore cur.start merged
    → IsRising (cur ∷ rest)
    → AllBefore (extend merged cur) rest
AllBefore-extend merged cur [] before rising = tt
AllBefore-extend merged cur (next ∷ rest) before (proper, later, rising) =
    TopBefore-le cur.start next.start (extend merged cur) later.0
      (extend-TopBefore merged cur before proper)

covers-merge_loop :
    (gno : ℕ) (merged rest : List Interval)
    → AllBefore merged rest
    → IsRising rest
    → covers gno (merge_loop merged rest) ≡ (covers gno merged || covers gno rest)
unfolding covers merge_loop
covers-merge_loop gno merged [] before rising = ground arith
covers-merge_loop gno merged (cur ∷ rest) before rising = ground (
  arith,
  covers-merge_loop gno (extend merged cur) rest (AllBefore-extend merged cur rest before rising)
      rising.2,
  covers-extend gno merged cur before rising.0,
)

covers-append :
    (gno : ℕ) (is js : List Interval) → covers gno (is ++ js) ≡ (covers gno is || covers gno js)
unfolding covers
covers-append gno [] js = refl
covers-append gno (i ∷ is) js = ground (arith, covers-append gno is js)

covers-reverse : (gno : ℕ) (is : List Interval) → covers gno (reverse is) ≡ covers gno is
unfolding covers
covers-reverse gno [] = refl
covers-reverse gno (i ∷ is) = ground (
  arith,
  ap (covers gno) (reverse-append (i ∷ []) is),
  covers-append gno (reverse is) (i ∷ []),
  covers-reverse gno is,
)

-- The loop over the sorted intervals keeps the transactions.
pub covers-merged :
    (gno : ℕ) (is : List Interval)
    → All IsProper is
    → covers gno (merge_loop [] (sort_intervals is)) ≡ covers gno is
unfolding covers
covers-merged gno is proper = ground (
  arith,
  covers-merge_loop gno [] (sort_intervals is),
  sort_intervals-IsRising is proper,
  covers-sort_intervals gno is,
)

-- Normalising neither adds nor loses a transaction, also where `End+1` wraps round to 0.
pub covers-normalize_intervals :
    (gno : ℕ) (is : List Interval)
    → All IsProper is
    → covers gno (normalize_intervals is) ≡ covers gno is
unfolding normalize_intervals
covers-normalize_intervals gno is proper =
    covers-reverse gno (merge_loop [] (sort_intervals is)) ∙ covers-merged gno is proper
