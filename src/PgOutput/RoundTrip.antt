-- ===== src/PgOutput/RoundTrip.antt =====
-- Tuples as PostgreSQL writes them are read back.
use dts.Common.{
  ℕ, ◌*◌, ◌/◌, ◌%◌, ◌^◌, ◌≤◌, ◌<◌, ◌≡◌, refl, ap, ◌∙◌, false, List, [], ◌∷◌, ◌++◌, ok, length,
  take-append, drop-append, length-append, All, arith, if◌then◌else◌, ltb, ◌==◌, ◌||◌,
}
use dts.Common.Bytes.{Bytes, from_be}
use dts.PgOutput.Wire.{>>=-step, bytes, u8, u16, u32}
use dts.PgOutput.Tuples.{TupleValue, parse_data, parse_value, parse_values, parse_tuple}

append_assoc : (xs ys zs : Bytes) → (xs ++ ys) ++ zs ≡ xs ++ (ys ++ zs)
append_assoc [] ys zs = refl
append_assoc (x ∷ xs) ys zs = ap (λ t. x ∷ t) (append_assoc xs ys zs)

-- A value that the protocol has: null or unchanged without data, or text or binary of at most 128 MiB.
pub data IsValue : TupleValue → Type 0 where
  is_null : IsValue (record { kind = 110; data_ = [] })
  is_unchanged : IsValue (record { kind = 117; data_ = [] })
  is_text : (v : Bytes) → length v ≤ 128 * 2 ^ 20 → IsValue (record { kind = 116; data_ = v })
  is_binary : (v : Bytes) → length v ≤ 128 * 2 ^ 20 → IsValue (record { kind = 98; data_ = v })

-- Big-endian numbers of 16 and 32 bits.
abbrev pub be16 : ℕ → Bytes
be16 n = n / 256 ∷ n % 256 ∷ []

abbrev pub be32 : ℕ → Bytes
be32 n = n / 2 ^ 24 ∷ n / 2 ^ 16 % 256 ∷ n / 256 % 256 ∷ n % 256 ∷ []

-- The protocol's layout of a value and of a tuple.
unfoldable pub encode_value : TupleValue → Bytes
encode_value v =
    v.kind ∷ (if v.kind == 116 || v.kind == 98 then be32 (length v.data_) ++ v.data_ else [])

unfoldable pub encode_values : List TupleValue → Bytes
unfolding encode_value
encode_values [] = []
encode_values (v ∷ vs) = encode_value v ++ encode_values vs

abbrev pub encode_tuple : List TupleValue → Bytes
encode_tuple vs = be16 (length vs) ++ encode_values vs

bytes-append : (xs rest : Bytes) → bytes (length xs) (xs ++ rest) ≡ ok (xs, rest)
unfolding bytes
bytes-append xs rest =
    ground (arith, length-append xs rest, take-append xs rest, drop-append xs rest)

u16-be16 : (n : ℕ) (rest : Bytes) → n < 2 ^ 16 → u16 (be16 n ++ rest) ≡ ok (n, rest)
unfolding u16
u16-be16 n rest h =
    let value : from_be 0 (be16 n) ≡ n = omega (arith, h) in
    >>=-step (bytes 2) _ (bytes-append (be16 n) rest) ∙ ap (λ v. ok (v, rest)) value

u32-be32 : (n : ℕ) (rest : Bytes) → n < 2 ^ 32 → u32 (be32 n ++ rest) ≡ ok (n, rest)
unfolding u32
u32-be32 n rest h =
    let value : from_be 0 (be32 n) ≡ n = omega (arith, h) in
    >>=-step (bytes 4) _ (bytes-append (be32 n) rest) ∙ ap (λ v. ok (v, rest)) value

parse_data-be32 :
    (kind : ℕ) (v rest : Bytes)
    → length v ≤ 128 * 2 ^ 20
    → parse_data kind ((be32 (length v) ++ v) ++ rest)
      ≡ ok (record { kind = kind; data_ = v }, rest)
unfolding parse_data
parse_data-be32 kind v rest h =
    let small : ltb (128 * 2 ^ 20) (length v) ≡ false = ground (arith, h) in
    >>=-step u32 _ (u32-be32 (length v) (v ++ rest) (omega (arith, h)))
    ∙ rw small (>>=-step (bytes (length v)) _ (bytes-append v rest))

parse_value-encode :
    (v : TupleValue) (rest : Bytes)
    → IsValue v
    → parse_value (encode_value v ++ rest) ≡ ok (v, rest)
unfolding parse_value encode_value u8
parse_value-encode v rest is_null = >>=-step u8 _ refl
parse_value-encode v rest is_unchanged = >>=-step u8 _ refl
parse_value-encode v rest (is_text w h) = >>=-step u8 _ refl ∙ parse_data-be32 116 w rest h
parse_value-encode v rest (is_binary w h) = >>=-step u8 _ refl ∙ parse_data-be32 98 w rest h

parse_values-encode :
    (vs : List TupleValue) (rest : Bytes)
    → All IsValue vs
    → parse_values (length vs) (encode_values vs ++ rest) ≡ ok (vs, rest)
unfolding parse_values encode_values
parse_values-encode [] rest h = refl
parse_values-encode (v ∷ vs) rest h =
    ap (parse_values (length (v ∷ vs))) (append_assoc (encode_value v) (encode_values vs) rest)
    ∙ >>=-step parse_value _ (parse_value-encode v (encode_values vs ++ rest) h.0)
    ∙ >>=-step (parse_values (length vs)) _ (parse_values-encode vs rest h.1)

-- `parseTuple` reads back every tuple of fewer than 65536 values that is laid out as the protocol has
-- it, each value null, unchanged, or text or binary of at most 128 MiB, and leaves what follows it.
pub parse_tuple-encode :
    (vs : List TupleValue) (rest : Bytes)
    → All IsValue vs
    → length vs < 2 ^ 16
    → parse_tuple (encode_tuple vs ++ rest) ≡ ok (vs, rest)
unfolding parse_tuple
parse_tuple-encode vs rest h small =
    >>=-step u16 _ (u16-be16 (length vs) (encode_values vs ++ rest) small)
    ∙ parse_values-encode vs rest h
