-- ===== src/OrderedMerge/Grouping.antt =====
-- The grouping loop on a list in order: strictly increasing groups that partition the list.
use mathlib.Core.List.{append-nil, append_assoc}
use dts.Common.{
  ℕ, ◌≤◌, ◌<◌, ◌≡◌, refl, sym, ◌∙◌, ap, Bool-cases, inl, inr, List, [], ◌∷◌, ◌++◌, ◌==◌, All,
  All-append, All-map, arith, ==_iff,
}
use dts.OrderedMerge.Defs.{Fragment, Group, add_to_groups, group_loop}
use dts.OrderedMerge.Sorting.{IsOrdered}

module _ {A : Type 0} where
  -- All fragments of all groups, in order.
  abbrev pub flat : List (Group A) → List (Fragment A)
  flat [] = []
  flat (g ∷ gs) = g.fragments ++ flat gs

  -- A group has a fragment, and each of its fragments has the group's order.
  pub record IsUniform (g : Group A) : Type 0 where
    pub first : Fragment A
    pub others : List (Fragment A)
    pub nonempty : g.fragments ≡ first ∷ others
    pub uniform : All (λ f. f.order ≡ g.order) g.fragments

  -- The groups are uniform and their orders rise strictly.
  abbrev pub IsGrouped : List (Group A) → Type 0
  IsGrouped [] = Unit
  IsGrouped (g ∷ gs) = IsUniform g × All (λ h. g.order < h.order) gs × IsGrouped gs

  single-IsUniform : (f : Fragment A) → IsUniform (record { order = f.order; fragments = f ∷ [] })
  single-IsUniform f = record { first = f; others = []; nonempty = refl; uniform = (refl, tt) }

  extended-IsUniform :
      (g : Group A) (f : Fragment A)
      → IsUniform g
      → g.order ≡ f.order
      → IsUniform (record g { fragments = g.fragments ++ (f ∷ []) })
  extended-IsUniform g f u e = record {
    first = u.first;
    others = u.others ++ (f ∷ []);
    nonempty = ap (λ t. t ++ (f ∷ [])) u.nonempty;
    uniform = All-append _ g.fragments (f ∷ []) u.uniform (sym e, tt);
  }

  flat-add_to_groups :
      (out : List (Group A)) (f : Fragment A) → flat (add_to_groups out f) ≡ flat out ++ (f ∷ [])
  unfolding add_to_groups
  flat-add_to_groups [] f = refl
  flat-add_to_groups (g ∷ []) f = elim (Bool-cases (g.order == f.order)) [
    | inl e ↦ rw e (simp append-nil)
    | inr e ↦ rw e (simp append-nil)
  ]
  flat-add_to_groups (g ∷ h ∷ gs) f =
      ap (λ t. g.fragments ++ t) (flat-add_to_groups (h ∷ gs) f)
      ∙ sym (append_assoc g.fragments (flat (h ∷ gs)) (f ∷ []))

  pub flat-group_loop :
      (out : List (Group A)) (fs : List (Fragment A)) → flat (group_loop out fs) ≡ flat out ++ fs
  unfolding group_loop
  flat-group_loop out [] = sym (append-nil (flat out))
  flat-group_loop out (f ∷ fs) =
      flat-group_loop (add_to_groups out f) fs
      ∙ ap (λ t. t ++ fs) (flat-add_to_groups out f)
      ∙ append_assoc (flat out) (f ∷ []) fs

  -- After a round no order passes that of the fragment just added.
  add_to_groups-le :
      (out : List (Group A)) (f : Fragment A)
      → All (λ g. g.order ≤ f.order) out
      → All (λ g. g.order ≤ f.order) (add_to_groups out f)
  unfolding add_to_groups
  add_to_groups-le [] f h = omega arith
  add_to_groups-le (g ∷ []) f h = elim (Bool-cases (g.order == f.order)) [
    | inl e ↦ rw e h
    | inr e ↦ rw e (h.0, omega arith)
  ]
  add_to_groups-le (g ∷ h ∷ gs) f k = (k.0, add_to_groups-le (h ∷ gs) f k.1)

  -- A bound from below on the orders carries over to the group that a round adds.
  add_to_groups-above :
      (n : ℕ) (out : List (Group A)) (f : Fragment A)
      → n < f.order
      → All (λ g. n < g.order) out
      → All (λ g. n < g.order) (add_to_groups out f)
  unfolding add_to_groups
  add_to_groups-above n [] f p h = (p, tt)
  add_to_groups-above n (g ∷ []) f p h = elim (Bool-cases (g.order == f.order)) [
    | inl e ↦ rw e h
    | inr e ↦ rw e (h.0, (p, tt))
  ]
  add_to_groups-above n (g ∷ h ∷ gs) f p k = (k.0, add_to_groups-above n (h ∷ gs) f p k.1)

  add_to_groups-IsGrouped :
      (out : List (Group A)) (f : Fragment A)
      → All (λ g. g.order ≤ f.order) out
      → IsGrouped out
      → IsGrouped (add_to_groups out f)
  unfolding add_to_groups
  add_to_groups-IsGrouped [] f h k = (single-IsUniform f, tt, tt)
  add_to_groups-IsGrouped (g ∷ []) f h k = elim (Bool-cases (g.order == f.order)) [
    | inl e ↦ rw e (extended-IsUniform g f k.0 ((==_iff _ _).0 e), tt, tt)
    | inr e ↦ rw e (k.0, (ground (arith, h.0), tt), (single-IsUniform f, tt, tt))
  ]
  add_to_groups-IsGrouped (g ∷ h ∷ gs) f p k = (
    k.0,
    add_to_groups-above g.order (h ∷ gs) f (omega (arith, k.1.0, p.1.0)) k.1,
    add_to_groups-IsGrouped (h ∷ gs) f p.1 k.2,
  )

  pub group_loop-IsGrouped :
      (out : List (Group A)) (fs : List (Fragment A))
      → IsOrdered fs
      → All (λ f. All (λ g. g.order ≤ f.order) out) fs
      → IsGrouped out
      → IsGrouped (group_loop out fs)
  unfolding group_loop
  group_loop-IsGrouped out [] h p k = k
  group_loop-IsGrouped out (f ∷ fs) h p k =
      group_loop-IsGrouped (add_to_groups out f) fs h.1
        (All-map _ _
          (λ f' q.
            All-map _ _ (λ g r. omega arith) (add_to_groups out f) (add_to_groups-le out f p.0))
          fs h.0)
        (add_to_groups-IsGrouped out f p.0 k)
