-- ===== src/Binlog/Gtid/Canonical.antt =====
-- gtid.go: the normal form of a set of transactions is unique.
use mathlib.Core.List.{reverse}
use dts.Common.{
  ℕ, ◌+◌, ◌-◌, ◌^◌, ◌≤◌, ◌<◌, ◌≡◌, ◌↔◌, refl, ◌∙◌, ap, sym, subst, true, false, List, [], ◌∷◌, All,
  arith,
}
use dts.Binlog.Gtid.{Interval, extend, merge_loop, sort_intervals, normalize_intervals}
use dts.Binlog.Gtid.Meaning.{
  covers, IsProper, IsRising, sort_intervals-IsRising, All-sort_intervals, AllBefore,
  AllBefore-extend, TopBefore, covers-merged, covers-normalize_intervals,
}

-- The last interval ends so far before `at` that a number is missing between them.
abbrev EndsBelow : ℕ → List Interval → Type 0
EndsBelow at [] = Unit
EndsBelow at (top ∷ merged) = top.end + 1 < at

-- Proper intervals, from the last to the first, with a gap between any two.
abbrev IsCanonical : List Interval → Type 0
IsCanonical [] = Unit
IsCanonical (top ∷ merged) = IsProper top × EndsBelow top.start merged × IsCanonical merged

covers-above :
    (gno at : ℕ) (merged : List Interval)
    → IsCanonical merged
    → EndsBelow at merged
    → at ≤ gno + 1
    → covers gno merged ≡ false
unfolding covers
covers-above gno at [] canonical below le = refl
covers-above gno at (top ∷ merged) (proper, below', canonical) below le =
    ground (arith, covers-above gno top.start merged canonical below')

covers-end :
    (top : Interval) (merged : List Interval) → IsProper top → covers top.end (top ∷ merged) ≡ true
unfolding covers
covers-end top merged proper = ground arith

abbrev SameCover : List Interval → List Interval → Type 0
SameCover is js = (gno : ℕ) → covers gno is ≡ covers gno js

-- Of two normal forms of one set, the second ends no later.
end-le :
    (i j : Interval) (is js : List Interval)
    → IsCanonical (i ∷ is)
    → IsCanonical (j ∷ js)
    → SameCover (i ∷ is) (j ∷ js)
    → j.end ≤ i.end
unfolding covers
end-le i j is js (proper, below, canonical) (proper', below', canonical') same =
    ground (arith, same j.end, covers-above j.end i.start is canonical below)

-- Nor does it start earlier.
start-le :
    (i j : Interval) (is js : List Interval)
    → IsCanonical (i ∷ is)
    → IsCanonical (j ∷ js)
    → SameCover (i ∷ is) (j ∷ js)
    → i.end ≡ j.end
    → i.start ≤ j.start
unfolding covers
start-le i j is js (proper, below, canonical) (proper', below', canonical') same e =
    ground (arith, same (i.start - 1), covers-above (i.start - 1) i.start is canonical below)

SameCover-tail :
    (i : Interval) (is js : List Interval)
    → IsCanonical (i ∷ is)
    → IsCanonical (i ∷ js)
    → SameCover (i ∷ is) (i ∷ js)
    → SameCover is js
unfolding covers
SameCover-tail i is js (proper, below, canonical) (proper', below', canonical') same gno = ground (
  arith,
  same gno,
  covers-above gno i.start is canonical below,
  covers-above gno i.start js canonical' below',
)

eq_of_ends : (i j : Interval) → i.start ≡ j.start → i.end ≡ j.end → i ≡ j
eq_of_ends i j p q = ground arith

nil_covers : (j : Interval) (js : List Interval) → IsProper j → SameCover [] (j ∷ js) → ⊥
unfolding covers
nil_covers j js proper same = cc (same j.end, covers-end j js proper)

eq_of_SameCover :
    (is js : List Interval) → IsCanonical is → IsCanonical js → SameCover is js → is ≡ js
eq_of_SameCover [] [] c d same = refl
eq_of_SameCover [] (j ∷ js) c d same = absurd (nil_covers j js d.0 same)
eq_of_SameCover (i ∷ is) [] c d same = absurd (nil_covers i is c.0 (λ gno. sym (same gno)))
eq_of_SameCover (i ∷ is) (j ∷ js) c d same =
    let back : SameCover (j ∷ js) (i ∷ is) = λ gno. sym (same gno) in
    let e : i.end ≡ j.end = omega (arith, end-le i j is js c d same, end-le j i js is d c back) in
    let s : i.start ≡ j.start =
      omega (arith, start-le i j is js c d same e, start-le j i js is d c back (sym e)) in
    let one : i ≡ j = eq_of_ends i j s e in
    let d' : IsCanonical (i ∷ js) = subst (λ k. IsCanonical (k ∷ js)) (sym one) d in
    let same' : SameCover (i ∷ is) (i ∷ js) =
      subst (λ k. SameCover (i ∷ is) (k ∷ js)) (sym one) same in
    ap (λ rest. i ∷ rest) (eq_of_SameCover is js c.2 d'.2 (SameCover-tail i is js c d' same'))
    ∙ ap (λ k. k ∷ js) one

-- `End+1` does not wrap round.
abbrev pub IsBounded : Interval → Type 0
IsBounded i = i.end + 1 < 2 ^ 64

abbrev TopBounded : List Interval → Type 0
TopBounded [] = Unit
TopBounded (top ∷ merged) = IsBounded top

extend-IsCanonical :
    (merged : List Interval) (cur : Interval)
    → IsCanonical merged
    → TopBefore cur.start merged
    → TopBounded merged
    → IsProper cur
    → IsBounded cur
    → IsCanonical (extend merged cur) × TopBounded (extend merged cur)
unfolding extend
extend-IsCanonical [] cur canonical before bounded proper bounded' = ((proper, tt, tt), bounded')
extend-IsCanonical (top ∷ merged) cur canonical before bounded proper bounded' =
    (ground arith, ground arith)

merge_loop-IsCanonical :
    (merged rest : List Interval)
    → IsCanonical merged
    → TopBounded merged
    → AllBefore merged rest
    → IsRising rest
    → All IsBounded rest
    → IsCanonical (merge_loop merged rest)
unfolding merge_loop
merge_loop-IsCanonical merged [] canonical top before rising bounded = canonical
merge_loop-IsCanonical merged (cur ∷ rest) canonical top before rising bounded =
    let (canonical', top') =
      extend-IsCanonical merged cur canonical before top rising.0 bounded.0 in
    merge_loop-IsCanonical (extend merged cur) rest canonical' top'
      (AllBefore-extend merged cur rest before rising) rising.2 bounded.1

AllBefore-nil : (is : List Interval) → AllBefore [] is
AllBefore-nil [] = tt
AllBefore-nil (i ∷ is) = tt

-- What the loop has merged of proper intervals whose ends are bounded, from the last to the first.
merged-IsCanonical :
    (is : List Interval)
    → All IsProper is
    → All IsBounded is
    → IsCanonical (merge_loop [] (sort_intervals is))
merged-IsCanonical is proper bounded =
    merge_loop-IsCanonical [] (sort_intervals is) tt tt (AllBefore-nil (sort_intervals is))
      (sort_intervals-IsRising is proper) (All-sort_intervals IsBounded is bounded)

-- The normal form decides equality of sets: two lists of proper intervals, whose ends lie below 2^64 - 1,
-- have the same normal form exactly if they hold the same transactions. So the order in which intervals
-- or single transactions came in, and how they overlapped, leaves no trace.
pub normalize_intervals_iff :
    (is js : List Interval)
    → All IsProper is
    → All IsBounded is
    → All IsProper js
    → All IsBounded js
    → ((gno : ℕ) → covers gno is ≡ covers gno js)
      ↔ (normalize_intervals is ≡ normalize_intervals js)
unfolding normalize_intervals
normalize_intervals_iff is js proper bounded proper' bounded' = (
  λ same. ap reverse (
      eq_of_SameCover _ _ (merged-IsCanonical is proper bounded)
        (merged-IsCanonical js proper' bounded')
        (λ gno. covers-merged gno is proper ∙ same gno ∙ sym (covers-merged gno js proper'))),
  λ e gno.
      sym (covers-normalize_intervals gno is proper)
      ∙ ap (covers gno) e
      ∙ covers-normalize_intervals gno js proper',
)
