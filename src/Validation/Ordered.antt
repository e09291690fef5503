-- ===== src/Validation/Ordered.antt =====
-- checksum.go: the checksums of an ordered scan hash the rows one after the other, whatever the batches.
use dts.Common.{
  ℕ, String, Bool, true, ◌+◌, ◌<◌, ◌≡◌, refl, sym, ◌∙◌, ap, List, [], ◌∷◌, ◌++◌, Result, length,
  arith,
}
use dts.Common.Bytes.{Bytes}
use dts.Validation.Values.{Row, Column, Formats}
use dts.Validation.Scanning.{Request, Batch, done, scan}
use dts.Validation.Checksums.{
  Checksum, put_ordered, new_ordered, encode_row, advance_key, same_count, first_request,
  keyset_canonical_bounded, to_hex, fnv, finish,
}
use dts.Validation.Paging.{IsConnector, IsAdvancing, IsEncoded, puts, scan-puts}
use dts.Validation.Sums.{advance_key-IsAdvancing, normal-positive, hashed_eq}

-- The rows one after the other.
abbrev pub joined : List Bytes → Bytes
joined [] = []
joined (b ∷ bs) = b ++ joined bs

fnv-append : (xs : Bytes) (h : ℕ) (ys : Bytes) → fnv h (xs ++ ys) ≡ fnv (fnv h xs) ys
unfolding fnv
fnv-append [] h ys = refl
fnv-append (x ∷ xs) h ys = fnv-append xs _ ys

puts-ordered :
    (rows sum : ℕ) (bs : List Bytes)
    → puts put_ordered (record { rows = rows; sum = sum }) bs
      ≡ record { rows = rows + length bs; sum = fnv sum (joined bs) }
unfolding puts put_ordered fnv
puts-ordered rows sum [] = hashed_eq (omega arith) refl
puts-ordered rows sum (b ∷ bs) =
    puts-ordered (rows + 1) (fnv sum b) bs
    ∙ hashed_eq (omega arith) (sym (fnv-append b sum (joined bs)))

-- The checksum of rows with these bytes.
abbrev pub ordered_checksum : List Bytes → Checksum
ordered_checksum bs = record {
  rows = length bs;
  hash = to_hex 16 (fnv 14695981039346656037 (joined bs));
}

module _ {S K : Type 0} (read : Request S K → Result String (Batch K))
    (rest : Request S K → List Row) (connector : IsConnector read rest) (formats : Formats)
    (read_cols canonical_cols : List Column) (batch_rows fuel : ℕ)
    (counts : same_count canonical_cols read_cols ≡ true) (slice : S) (bs : List Bytes) where
  abbrev pub first : Bool → Request S K
  first use_keyset =
      first_request read formats read_cols canonical_cols batch_rows fuel slice use_keyset

  -- A scan from such a request, whichever way its cursor moves.
  scan-fnv :
      (Fits : Request S K → Type 0) (advance : Batch K → Request S K → Result String (Request S K))
      → IsAdvancing read rest Fits advance connector.batch
      → (use_keyset : Bool) → Fits (first use_keyset)
      → length (rest (first use_keyset)) < fuel
      → IsEncoded (encode_row formats canonical_cols) (rest (first use_keyset)) bs
      → finish read formats read_cols canonical_cols batch_rows fuel 16 (
          scan read
            (encode_row formats canonical_cols)
            put_ordered
            advance
            fuel
            (first use_keyset)
            new_ordered)
        ≡ done (ordered_checksum bs)
  scan-fnv Fits advance advancing use_keyset fits enough h =
      ap (finish read formats read_cols canonical_cols batch_rows fuel 16) (
        scan-puts read (encode_row formats canonical_cols) put_ordered advance rest connector Fits
          advancing fuel (first use_keyset) new_ordered bs fits (normal-positive batch_rows) enough
          h
        ∙ ap done (puts-ordered 0 14695981039346656037 bs ∙ hashed_eq (omega arith) refl))

  -- `KeysetCanonicalBounded` returns the same of the rows that its connector lists by key.
  pub keyset_canonical_bounded-fnv :
      (key : String) (keys : List String)
      → length (rest (first true)) < fuel
      → IsEncoded (encode_row formats canonical_cols) (rest (first true)) bs
      → keyset_canonical_bounded read formats read_cols canonical_cols batch_rows fuel
          (key ∷ keys)
          slice
        ≡ done (ordered_checksum bs)
  unfolding keyset_canonical_bounded
  keyset_canonical_bounded-fnv key keys enough h = rw counts (
      scan-fnv (λ req. req.use_keyset ≡ true) advance_key
        (advance_key-IsAdvancing read rest connector) true refl enough h)
