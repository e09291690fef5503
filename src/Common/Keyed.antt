-- ===== src/Common/Keyed.antt =====
-- Association lists keyed by text: Go's map[string]V, with a missing key as `none`.
use dts.Common.Tests.{◌=s=◌, if◌then◌else◌}
use Prim.Native.String.{String}
use mathlib.Core.Path.{◌≡◌, refl}
use mathlib.Core.List.{List, [], ◌∷◌}
use mathlib.Core.Option.{Option, none, some}
use native.Mathlib.Omega.{arith}
use text.Mathlib.TextEquality.{eq_iff}

module _ {ℓ} {V : Type ℓ} where
  -- `v, ok := m[k]`
  unfoldable pub lookup : String → List (String × V) → Option V
  lookup key ((own, value) ∷ others) = if own =s= key then some value else lookup key others
  lookup key [] = none

  -- `m[k] = v`
  unfoldable pub insert : String → V → List (String × V) → List (String × V)
  insert key new ((own, value) ∷ others) =
      if own =s= key then (key, new) ∷ others else (own, value) ∷ insert key new others
  insert key new [] = (key, new) ∷ []

  -- `delete(m, k)`
  unfoldable pub delete : String → List (String × V) → List (String × V)
  delete key ((own, value) ∷ others) =
      if own =s= key then delete key others else (own, value) ∷ delete key others
  delete key [] = []

  pub lookup-insert :
      (key asked : String) (new : V) (entries : List (String × V))
      → lookup asked (insert key new entries)
        ≡ (if key =s= asked then some new else lookup asked entries)
  unfolding lookup insert
  lookup-insert key asked new ((own, value) ∷ others) = ground (
    arith,
    lookup-insert key asked new others,
    eq_iff own asked,
    eq_iff own key,
    eq_iff key asked,
  )
  lookup-insert key asked new [] = refl

  pub lookup-delete :
      (key asked : String) (entries : List (String × V))
      → lookup asked (delete key entries) ≡ (if key =s= asked then none else lookup asked entries)
  unfolding lookup delete
  lookup-delete key asked ((own, value) ∷ others) =
      ground
        (arith, lookup-delete key asked others, eq_iff own asked, eq_iff own key, eq_iff key asked)
  lookup-delete key asked [] = ground arith
