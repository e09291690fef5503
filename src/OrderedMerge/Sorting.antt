-- ===== src/OrderedMerge/Sorting.antt =====
-- The stable sort by order and stream: sorted, a permutation, and stable within a stream.
use mathlib.Core.List.{Perm}
use mathlib.Core.List.Perm
use text.Mathlib.TextPositions.{compare_refl}
use dts.Common.{
  String, ◌≤◌, ◌≡◌, refl, true, false, Bool-cases, inl, inr, List, [], ◌∷◌, ◌=s=◌, All, All-map,
  ◌∙◌, if◌then◌else◌, arith, eq_iff,
}
use dts.OrderedMerge.Defs.{Fragment, less, insert_stable, sort_stable}

module _ {A : Type 0} where
  -- Orders never fall along the list.
  abbrev pub IsOrdered : List (Fragment A) → Type 0
  IsOrdered [] = Unit
  IsOrdered (f ∷ fs) = All (λ g. f.order ≤ g.order) fs × IsOrdered fs

  pub less_order : (f g : Fragment A) → less f g ≡ true → f.order ≤ g.order
  unfolding less
  less_order f g h = ground arith

  pub not_less_order : (f g : Fragment A) → less f g ≡ false → g.order ≤ f.order
  unfolding less
  not_less_order f g h = ground arith

  All-insert_stable :
      (P : Fragment A → Type 0) (f : Fragment A) (gs : List (Fragment A))
      → P f
      → All P gs
      → All P (insert_stable f gs)
  unfolding insert_stable
  All-insert_stable P f [] h k = (h, tt)
  All-insert_stable P f (g ∷ gs) h k = elim (Bool-cases (less g f)) [
    | inl e ↦ rw e (k.0, All-insert_stable P f gs h k.1)
    | inr e ↦ rw e (h, k)
  ]

  All-le_trans :
      (f g : Fragment A) (hs : List (Fragment A))
      → f.order ≤ g.order
      → All (λ h. g.order ≤ h.order) hs
      → All (λ h. f.order ≤ h.order) hs
  All-le_trans f g hs p k = All-map _ _ (λ h q. omega arith) hs k

  insert_stable-IsOrdered :
      (f : Fragment A) (gs : List (Fragment A)) → IsOrdered gs → IsOrdered (insert_stable f gs)
  unfolding insert_stable
  insert_stable-IsOrdered f [] h = (tt, tt)
  insert_stable-IsOrdered f (g ∷ gs) h = elim (Bool-cases (less g f)) [
    | inl e ↦
        rw e (All-insert_stable _ f gs (less_order g f e) h.0, insert_stable-IsOrdered f gs h.1)
    | inr e ↦ rw e ((not_less_order g f e, All-le_trans f g gs (not_less_order g f e) h.0), h)
  ]

  pub sort_stable-IsOrdered : (fs : List (Fragment A)) → IsOrdered (sort_stable fs)
  unfolding sort_stable
  sort_stable-IsOrdered [] = tt
  sort_stable-IsOrdered (f ∷ fs) =
      insert_stable-IsOrdered f (sort_stable fs) (sort_stable-IsOrdered fs)

  insert_stable-perm :
      (f : Fragment A) (gs : List (Fragment A)) → Perm (insert_stable f gs) (f ∷ gs)
  unfolding insert_stable
  insert_stable-perm f [] = Perm.refl (f ∷ [])
  insert_stable-perm f (g ∷ gs) = elim (Bool-cases (less g f)) [
    | inl e ↦ rw e (Perm.trans (Perm.cons g (insert_stable-perm f gs)) (Perm.swap f g gs))
    | inr e ↦ rw e (Perm.refl (f ∷ g ∷ gs))
  ]

  pub sort_stable-perm : (fs : List (Fragment A)) → Perm (sort_stable fs) fs
  unfolding sort_stable
  sort_stable-perm [] = Perm.refl []
  sort_stable-perm (f ∷ fs) =
      Perm.trans (insert_stable-perm f (sort_stable fs)) (Perm.cons f (sort_stable-perm fs))

  -- The fragments of one stream, in the list's order.
  abbrev pub only : String → List (Fragment A) → List (Fragment A)
  only id [] = []
  only id (f ∷ fs) = if f.stream =s= id then f ∷ only id fs else only id fs

  -- Within each stream the orders never fall along the list.
  abbrev pub IsStreamOrdered : List (Fragment A) → Type 0
  IsStreamOrdered [] = Unit
  IsStreamOrdered (f ∷ fs) =
      All (λ g. g.stream ≡ f.stream → f.order ≤ g.order) fs × IsStreamOrdered fs

  -- A fragment of the same stream is less only if its order is.
  same_stream_not_less :
      (f g : Fragment A) → g.stream ≡ f.stream → f.order ≤ g.order → less g f ≡ false
  unfolding less
  same_stream_not_less f g e h = rw e (rw (compare_refl f.stream) (ground arith))

  only-insert_stable :
      (id : String) (f : Fragment A) (gs : List (Fragment A))
      → All (λ g. g.stream ≡ f.stream → f.order ≤ g.order) gs
      → only id (insert_stable f gs) ≡ only id (f ∷ gs)
  unfolding insert_stable
  only-insert_stable id f [] h = refl
  only-insert_stable id f (g ∷ gs) h = elim (Bool-cases (less g f)) [
    | inl e ↦ ground (
      arith,
      only-insert_stable id f gs h.1,
      eq_iff f.stream id,
      eq_iff g.stream id,
      λ (p : g.stream ≡ f.stream). same_stream_not_less f g p (h.0 p),
    )
    | inr e ↦ rw e refl
  ]

  pub All-sort_stable :
      (P : Fragment A → Type 0) (fs : List (Fragment A)) → All P fs → All P (sort_stable fs)
  unfolding sort_stable
  All-sort_stable P [] h = tt
  All-sort_stable P (f ∷ fs) h =
      All-insert_stable P f (sort_stable fs) h.0 (All-sort_stable P fs h.1)

  pub only-sort_stable :
      (id : String) (fs : List (Fragment A))
      → IsStreamOrdered fs
      → only id (sort_stable fs) ≡ only id fs
  unfolding sort_stable
  only-sort_stable id [] h = refl
  only-sort_stable id (f ∷ fs) h =
      only-insert_stable id f (sort_stable fs) (All-sort_stable _ fs h.0)
      ∙ rw (only-sort_stable id fs h.1)

  insert_stable-All :
      (P : Fragment A → Type 0) (f : Fragment A) (gs : List (Fragment A))
      → All P (insert_stable f gs)
      → P f × All P gs
  unfolding insert_stable
  insert_stable-All P f [] h = (h.0, tt)
  insert_stable-All P f (g ∷ gs) h = elim (Bool-cases (less g f)) [
    | inl e ↦
        let h' = rw (e, if◌then◌else◌) at h in
        let (first, others) = insert_stable-All P f gs h'.1 in (first, (h'.0, others))
    | inr e ↦ let h' = rw (e, if◌then◌else◌) at h in (h'.0, h'.1)
  ]

  pub sort_stable-All :
      (P : Fragment A → Type 0) (fs : List (Fragment A)) → All P (sort_stable fs) → All P fs
  unfolding sort_stable
  sort_stable-All P [] h = tt
  sort_stable-All P (f ∷ fs) h =
      let (first, others) = insert_stable-All P f (sort_stable fs) h in
      (first, sort_stable-All P fs others)
