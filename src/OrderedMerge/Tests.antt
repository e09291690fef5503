-- ===== src/OrderedMerge/Tests.antt =====
-- Runs of the merge, and its theorems at concrete input.
use mathlib.Core.List.{Perm}
use dts.Common.{ℕ, String, ◌≤◌, ◌≡◌, ◌↔◌, refl, List, [], ◌∷◌, All, arith, ok, err}
use dts.OrderedMerge.Defs.{
  Fragment, Stream, Group, max_uint64, duplicate_stream, order_regressed, merge,
}
use dts.OrderedMerge.Sorting.{only}
use dts.OrderedMerge.Grouping.{flat, IsGrouped}
use dts.OrderedMerge.Collecting.{IsValidInput, released}
use dts.OrderedMerge.Merging.{
  merge-succeeds_iff, merge-IsGrouped, merge-perm-released, merge-stream_order, merge_early_release,
}

abbrev at : ℕ → ℕ → Fragment ℕ
at n v = record { stream = ""; order = n; value = v }

abbrev tagged : String → ℕ → ℕ → Fragment ℕ
tagged id n v = record { stream = id; order = n; value = v }

-- The second stream's watermark is the lower one.
abbrev ahead : Stream ℕ
ahead = record { id = "a"; resolved = 10; fragments = at 2 20 ∷ at 8 80 ∷ [] }

abbrev behind : Stream ℕ
behind = record { id = "b"; resolved = 5; fragments = at 2 21 ∷ at 4 41 ∷ at 7 71 ∷ [] }

abbrev two_groups : List (Group ℕ)
two_groups =
    record { order = 2; fragments = tagged "a" 2 20 ∷ tagged "b" 2 21 ∷ [] }
    ∷ record { order = 4; fragments = tagged "b" 4 41 ∷ [] }
    ∷ []

merged : merge (behind ∷ ahead ∷ []) ≡ ok two_groups
unfolding merge
merged = refl

abbrev late : Stream ℕ
late = record { id = "a"; resolved = 10; fragments = at 8 80 ∷ [] }

abbrev eight : List (Group ℕ)
eight = record { order = 8; fragments = tagged "a" 8 80 ∷ [] } ∷ []

abbrev idle : Stream ℕ
idle = record { id = "b"; resolved = 5; fragments = [] }

released_early : merge (late ∷ idle ∷ []) ≡ ok eight
unfolding merge
released_early = refl

regressed :
    merge (record { id = "a"; resolved = 9; fragments = at 3 0 ∷ at 2 0 ∷ [] } ∷ [])
    ≡ err (order_regressed "a" 3 2)
unfolding merge
regressed = refl

repeated : merge (idle ∷ idle ∷ []) ≡ err (duplicate_stream "b")
unfolding merge
repeated = refl

merge-IsGrouped_example : IsGrouped two_groups
merge-IsGrouped_example = merge-IsGrouped (behind ∷ ahead ∷ []) merged

merge-perm-released_example : Perm (flat two_groups) (released max_uint64 (behind ∷ ahead ∷ []))
merge-perm-released_example = merge-perm-released (behind ∷ ahead ∷ []) merged

merge-stream_order_example :
    only "b" (flat two_groups) ≡ only "b" (released max_uint64 (behind ∷ ahead ∷ []))
merge-stream_order_example = merge-stream_order (behind ∷ ahead ∷ []) "b" merged

merge_early_release_example : ¬ All (λ (g : Fragment ℕ). g.order ≤ 5) (flat eight)
merge_early_release_example =
    merge_early_release late idle (at 8 80) [] refl (omega arith) (omega arith) (omega arith)
      released_early

merge-succeeds_iff_example :
    ((gs : List (Group ℕ)) × (merge (behind ∷ []) ≡ ok gs)) ↔ IsValidInput [] (behind ∷ [])
merge-succeeds_iff_example = merge-succeeds_iff (behind ∷ [])
