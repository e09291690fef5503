-- ===== src/OrderedMerge/Defs.antt =====
-- merge.go: the types and `Merge`, cut into its collecting loop, its sort and its grouping loop.
-- Orders and watermarks are uint64 values that the code only compares.
use Prim.Native.String.{compare}
use text.Mathlib.Text.{is_lt}
use dts.Common.{
  ℕ, String, Bool, false, ◌-◌, ◌^◌, ◌==◌, ◌=s=◌, ltb, leb, not, ◌||◌, if◌then◌else◌, List, [], ◌∷◌,
  ◌++◌, Result, ok, err, ◌>>=◌,
}

pub record Fragment (A : Type 0) : Type 0 where
  pub stream : String
  pub order : ℕ
  pub value : A

pub record Stream (A : Type 0) : Type 0 where
  pub id : String
  pub resolved : ℕ
  pub fragments : List (Fragment A)

pub record Group (A : Type 0) : Type 0 where
  pub order : ℕ
  pub fragments : List (Fragment A)

pub data MergeError : Type 0 where
  empty_id : MergeError
  duplicate_stream : String → MergeError
  no_watermark : String → MergeError
  foreign_fragment : String → String → MergeError
  zero_order : String → MergeError
  order_regressed : String → ℕ → ℕ → MergeError

-- `^uint64(0)`
abbrev pub max_uint64 : ℕ
max_uint64 = 2 ^ 64 - 1

-- `seen[id]`
unfoldable pub seen_has : String → List String → Bool
seen_has id [] = false
seen_has id (s ∷ seen) = s =s= id || seen_has id seen

module _ {A : Type 0} where
  -- `if f.Stream == "" { f.Stream = s.ID }`, on the loop's copy.
  unfoldable pub own : String → Fragment A → Fragment A
  own id f = if f.stream =s= "" then record f { stream = id } else f

  -- The inner loop over one stream's fragments; `last` starts at 0.
  unfoldable pub scan_fragments :
      String → ℕ → ℕ → List (Fragment A) → List (Fragment A) → Result MergeError (List (Fragment A))
  unfolding own
  scan_fragments id min_resolved last [] all = ok all
  scan_fragments id min_resolved last (f₀ ∷ fs) all =
      let f = own id f₀ in
      let rest =
        scan_fragments id min_resolved f.order fs
          (if leb f.order min_resolved then all ++ (f ∷ []) else all) in
      if not (f.stream =s= id)
      then err (foreign_fragment f.stream id)
      else if f.order == 0
      then err (zero_order id)
      else if ltb f.order last
      then err (order_regressed id last f.order)
      else rest

  -- The outer loop over the streams. `min_resolved` is the minimum so far.
  unfoldable pub scan_streams :
      List String → ℕ → List (Stream A) → List (Fragment A) → Result MergeError (List (Fragment A))
  unfolding seen_has
  scan_streams seen min_resolved [] all = ok all
  scan_streams seen min_resolved (s ∷ streams) all =
      let min' = if ltb s.resolved min_resolved then s.resolved else min_resolved in
      let rest = (do
        all' ← scan_fragments s.id min' 0 s.fragments all
        scan_streams (s.id ∷ seen) min' streams all') in
      if s.id =s= ""
      then err empty_id
      else if seen_has s.id seen
      then err (duplicate_stream s.id)
      else if s.resolved == 0
      then err (no_watermark s.id)
      else rest

  -- The comparison given to `sort.SliceStable`.
  unfoldable pub less : Fragment A → Fragment A → Bool
  less f g = if f.order == g.order then is_lt (compare f.stream g.stream) else ltb f.order g.order

  -- A stable sort, as `sort.SliceStable` promises: an item goes before the first one not less than it.
  unfoldable pub insert_stable : Fragment A → List (Fragment A) → List (Fragment A)
  unfolding less
  insert_stable f [] = f ∷ []
  insert_stable f (g ∷ gs) = if less g f then g ∷ insert_stable f gs else f ∷ g ∷ gs

  unfoldable pub sort_stable : List (Fragment A) → List (Fragment A)
  unfolding insert_stable
  sort_stable [] = []
  sort_stable (f ∷ fs) = insert_stable f (sort_stable fs)

  -- One round of the grouping loop: a new group if the order is new, then the append to the last.
  unfoldable pub add_to_groups : List (Group A) → Fragment A → List (Group A)
  add_to_groups [] f = record { order = f.order; fragments = f ∷ [] } ∷ []
  add_to_groups (g ∷ []) f =
      if g.order == f.order
      then record g { fragments = g.fragments ++ (f ∷ []) } ∷ []
      else g ∷ record { order = f.order; fragments = f ∷ [] } ∷ []
  add_to_groups (g ∷ h ∷ gs) f = g ∷ add_to_groups (h ∷ gs) f

  unfoldable pub group_loop : List (Group A) → List (Fragment A) → List (Group A)
  unfolding add_to_groups
  group_loop out [] = out
  group_loop out (f ∷ fs) = group_loop (add_to_groups out f) fs

  unfoldable pub merge : List (Stream A) → Result MergeError (List (Group A))
  unfolding scan_streams scan_fragments sort_stable group_loop
  merge [] = ok []
  merge (s ∷ streams) = do
    all ← scan_streams [] max_uint64 (s ∷ streams) []
    ok (group_loop [] (sort_stable all))
