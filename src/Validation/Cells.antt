-- ===== src/Validation/Cells.antt =====
-- checksum.go: the bytes of a row tell its canonical form.
use mathlib.Core.List.{append_assoc, head-eq_of_cons-eq, tail-eq_of_cons-eq}
use dts.Common.{
  ◌^◌, ◌<◌, ◌≡◌, refl, sym, ◌∙◌, ap, List, [], ◌∷◌, ◌++◌, Option, none, some, length, All, arith,
}
use dts.Common.Bytes.{Bytes, from_le, to_le, length-to_le, from_le-to_le_eight}
use dts.Validation.Values.{cell_bytes, row_bytes}

-- The length of a value fits into 64 bits.
abbrev pub IsShort : Option Bytes → Type 0
IsShort none = Unit
IsShort (some raw) = length raw < 2 ^ 64

-- Two texts whose fronts have one length.
module _ {A : Type 0} where
  append-equal_front :
      (xs ys front back : List A)
      → length xs ≡ length ys
      → xs ++ front ≡ ys ++ back
      → (xs ≡ ys) × (front ≡ back)
  append-equal_front [] [] front back l h = (refl, h)
  append-equal_front [] (y ∷ ys) front back l h = ground arith
  append-equal_front (x ∷ xs) [] front back l h = ground arith
  append-equal_front (x ∷ xs) (y ∷ ys) front back l h =
      let (same, rest) =
        append-equal_front xs ys front back (omega (arith, l)) (tail-eq_of_cons-eq h) in
      ((λ i. head-eq_of_cons-eq h i ∷ same i), rest)

some-equal :
    (x y front back : Bytes)
    → length x < 2 ^ 64
    → length y < 2 ^ 64
    → cell_bytes (some x) ++ front ≡ cell_bytes (some y) ++ back
    → (x ≡ y) × (front ≡ back)
some-equal x y front back h k e =
    let (sizes, texts) =
      append-equal_front (to_le 8 (length x)) (to_le 8 (length y)) (x ++ front) (y ++ back)
        (length-to_le 8 (length x) ∙ sym (length-to_le 8 (length y)))
        (sym (append_assoc (to_le 8 (length x)) x front)
          ∙ tail-eq_of_cons-eq e
          ∙ append_assoc (to_le 8 (length y)) y back) in
    append-equal_front x y front back
      (sym (from_le-to_le_eight (length x) h) ∙ ap from_le sizes ∙ from_le-to_le_eight (length y) k)
      texts

-- Rows that are hashed as the same bytes have the same canonical form: the same number of values, the same
-- of them NULL, and the others equal. The lengths of the values fit into 64 bits.
pub row_bytes-injective :
    (xs ys : List (Option Bytes))
    → All IsShort xs
    → All IsShort ys
    → row_bytes xs ≡ row_bytes ys
    → xs ≡ ys
unfolding row_bytes
row_bytes-injective [] [] h k e = refl
row_bytes-injective [] (none ∷ ys) h k e = ground (arith, head-eq_of_cons-eq e)
row_bytes-injective [] (some y ∷ ys) h k e = ground (arith, head-eq_of_cons-eq e)
row_bytes-injective (none ∷ xs) [] h k e = ground (arith, head-eq_of_cons-eq e)
row_bytes-injective (some x ∷ xs) [] h k e = ground (arith, head-eq_of_cons-eq e)
row_bytes-injective (none ∷ xs) (some y ∷ ys) h k e = ground (arith, head-eq_of_cons-eq e)
row_bytes-injective (some x ∷ xs) (none ∷ ys) h k e = ground (arith, head-eq_of_cons-eq e)
row_bytes-injective (none ∷ xs) (none ∷ ys) h k e =
    ap (λ t. none ∷ t) (row_bytes-injective xs ys h.1 k.1 (tail-eq_of_cons-eq e))
row_bytes-injective (some x ∷ xs) (some y ∷ ys) h k e =
    let (same, rest) = some-equal x y (row_bytes xs) (row_bytes ys) h.0 k.0 e in
    λ i. some (same i) ∷ row_bytes-injective xs ys h.1 k.1 rest i
