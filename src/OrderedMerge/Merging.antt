-- ===== src/OrderedMerge/Merging.antt =====
-- `Merge` as a whole.
use mathlib.Core.List.{Perm}
use dts.Common.{
  String, ◌≤◌, ◌<◌, ◌≡◌, ◌↔◌, refl, sym, ◌∙◌, ap, subst, List, [], ◌∷◌, ◌^◌, All, All-append,
  All-map, All-left, All-of, arith, ok, >>=-eq-ok,
}
use dts.OrderedMerge.Defs.{
  Fragment, Stream, Group, max_uint64, scan_streams, sort_stable, group_loop, merge,
}
use dts.OrderedMerge.Sorting.{
  only, All-sort_stable, sort_stable-All, sort_stable-IsOrdered, sort_stable-perm, only-sort_stable,
}
use dts.OrderedMerge.Grouping.{flat, IsGrouped, flat-group_loop, group_loop-IsGrouped}
use dts.OrderedMerge.Collecting.{
  IsValidInput, upto, upto_bounds, upto-first, released-le, released-IsStreamOrdered, lower,
  released, scan_streams-IsValidInput, IsValidInput-scan_streams,
}

module _ {A : Type 0} where
  merge-IsValidInput :
      (streams : List (Stream A))
      → IsValidInput [] streams
      → merge streams ≡ ok (group_loop [] (sort_stable (released max_uint64 streams)))
  unfolding merge
  merge-IsValidInput [] h = unfold sort_stable group_loop in refl
  merge-IsValidInput (s ∷ streams) h =
      rw (scan_streams-IsValidInput [] max_uint64 (s ∷ streams) [] h)

  IsValidInput-merge :
      (streams : List (Stream A)) {gs : List (Group A)}
      → merge streams ≡ ok gs
      → IsValidInput [] streams
  unfolding merge
  IsValidInput-merge [] h = tt
  IsValidInput-merge (s ∷ streams) h =
      let (all, scanned, _) = >>=-eq-ok (scan_streams [] max_uint64 (s ∷ streams) []) _ h in
      IsValidInput-scan_streams [] max_uint64 (s ∷ streams) [] scanned

  -- `Merge` succeeds exactly on valid input: streams with names, no name twice, each with a positive
  -- watermark and with only its own fragments, whose orders are positive and do not fall.
  pub merge-succeeds_iff :
      (streams : List (Stream A))
      → ((gs : List (Group A)) × (merge streams ≡ ok gs)) ↔ IsValidInput [] streams
  merge-succeeds_iff streams =
      (λ h. IsValidInput-merge streams h.1, λ h. (_, merge-IsValidInput streams h))

  merge-result :
      (streams : List (Stream A)) {gs : List (Group A)}
      → merge streams ≡ ok gs
      → gs ≡ group_loop [] (sort_stable (released max_uint64 streams))
  merge-result streams h = cc (merge-IsValidInput streams (IsValidInput-merge streams h))

  flat-merge :
      (streams : List (Stream A)) {gs : List (Group A)}
      → merge streams ≡ ok gs
      → flat gs ≡ sort_stable (released max_uint64 streams)
  flat-merge streams h =
      ap flat (merge-result streams h)
      ∙ flat-group_loop [] (sort_stable (released max_uint64 streams))

  -- The groups of a successful `Merge` have strictly rising orders, none is empty, and each holds
  -- fragments of its own order only.
  pub merge-IsGrouped :
      (streams : List (Stream A)) {gs : List (Group A)} → merge streams ≡ ok gs → IsGrouped gs
  merge-IsGrouped streams h =
      let sorted = sort_stable (released max_uint64 streams) in
      subst IsGrouped (sym (merge-result streams h)) (
        group_loop-IsGrouped [] sorted (sort_stable-IsOrdered (released max_uint64 streams))
          (All-of _ (λ f. tt) sorted) tt)

  -- A successful `Merge` loses and doubles nothing: its groups hold, as a permutation, exactly the
  -- fragments of each stream up to the least watermark of that stream and those before it.
  pub merge-perm-released :
      (streams : List (Stream A)) {gs : List (Group A)}
      → merge streams ≡ ok gs
      → Perm (flat gs) (released max_uint64 streams)
  merge-perm-released streams h =
      rw (flat-merge streams h) (sort_stable-perm (released max_uint64 streams))

  -- A successful `Merge` keeps the order of every stream: what its groups hold of a stream is, in
  -- sequence, what the stream released.
  pub merge-stream_order :
      (streams : List (Stream A)) {gs : List (Group A)} (id : String)
      → merge streams ≡ ok gs
      → only id (flat gs) ≡ only id (released max_uint64 streams)
  merge-stream_order streams id h =
      ap (only id) (flat-merge streams h)
      ∙ only-sort_stable id _
          (released-IsStreamOrdered [] max_uint64 streams (IsValidInput-merge streams h))

  -- If the first stream has the least watermark, a successful `Merge` releases nothing past the
  -- watermark of any stream.
  pub merge_within_watermarks :
      (s : Stream A) (streams : List (Stream A)) {gs : List (Group A)}
      → All (λ t. s.resolved ≤ t.resolved) streams
      → merge (s ∷ streams) ≡ ok gs
      → All (λ t. All (λ f. f.order ≤ t.resolved) (flat gs)) (s ∷ streams)
  merge_within_watermarks s streams {gs} least h = (
    first,
    All-map _ _ (λ t k. All-map _ _ (λ f p. omega (arith, p, k)) (flat gs) first) streams least,
  )
    where
      valid : IsValidInput [] (s ∷ streams)
      valid = IsValidInput-merge (s ∷ streams) h

      low : lower s.resolved max_uint64 ≤ s.resolved
      low = ground arith

      bounded : All (λ f. f.order ≤ s.resolved) (released max_uint64 (s ∷ streams))
      bounded =
          let m' = lower s.resolved max_uint64 in
          All-append _ (upto m' s.id s.fragments) (released m' streams)
            (All-map _ _ (λ g k. omega (arith, k.2, low)) _
              (upto_bounds m' s.id 0 s.fragments valid.3))
            (All-map _ _ (λ g k. omega (arith, k, low)) _
              (released-le (s.id ∷ []) m' streams valid.4))

      first : All (λ f. f.order ≤ s.resolved) (flat gs)
      first = rw (flat-merge (s ∷ streams) h) (All-sort_stable _ _ bounded)

  -- `Merge` can release past the watermark of a later stream: with two streams, if the first
  -- fragment of the first is past the second's watermark and within the first's, a successful call
  -- returns a fragment past the second's watermark.
  pub merge_early_release :
      (a b : Stream A) (f : Fragment A) (fs : List (Fragment A)) {gs : List (Group A)}
      → a.fragments ≡ f ∷ fs
      → b.resolved < f.order
      → f.order ≤ a.resolved
      → f.order < 2 ^ 64
      → merge (a ∷ b ∷ []) ≡ ok gs
      → ¬ All (λ g. g.order ≤ b.resolved) (flat gs)
  merge_early_release a b f fs e past within fits h all =
      let m' = lower a.resolved max_uint64 in
      let back = rw (flat-merge (a ∷ b ∷ []) h) at all in
      let front = All-left _ (upto m' a.id a.fragments) _ (sort_stable-All _ _ back) in
      let within' : f.order ≤ m' = ground arith in
      let low = upto-first b.resolved m' a.id f fs within' (rw e at front) in
      absurd (omega (arith, low))
