-- ===== src/Validation/Tests.antt =====
-- The theorems on the checksums at a small table, which a connector lists by the position of its rows.
use mathlib.Core.List.Perm
use dts.Common.{
  ℕ, zero, suc, String, true, false, ◌+◌, ◌≡◌, refl, ap, if◌then◌else◌, List, [], ◌∷◌, Option, none,
  some, ok, take, drop, arith,
}
use dts.Common.Bytes.{Bytes, codes}
use dts.Validation.Values.{Row, Column, Formats, row_bytes}
use dts.Validation.Scanning.{Request, Batch, done}
use dts.Validation.Checksums.{encode_row, range_canonical, keyset_canonical_bounded}
use dts.Validation.Cells.{row_bytes-injective}
use dts.Validation.Paging.{IsConnector, no_rows, row}
use dts.Validation.Sums.{slice}
use dts.Validation.Ordered.{ordered_checksum, keyset_canonical_bounded-fnv}

abbrev position : Row → ℕ
position [] = 0
position (v ∷ vs) = elim v.raw [ [] ↦ 0 | n ∷ ns ↦ n ]

abbrev at : Request (List Row) ℕ → ℕ
at req = if req.use_keyset then position req.cursor else elim req.after_pk [ none ↦ 0 | some n ↦ n ]

abbrev rest : Request (List Row) ℕ → List Row
rest req = drop (at req) req.slice

abbrev batch : Request (List Row) ℕ → Batch ℕ
batch req = record {
  rows = take req.limit (rest req);
  last_pk = at req + req.limit;
  last_key = record { null = false; raw = (at req + req.limit) ∷ [] } ∷ [];
}

drop-drop : {A : Type 0} (m n k : ℕ) (xs : List A) → k ≡ m + n → drop k xs ≡ drop n (drop m xs)
drop-drop zero n k xs e = let same : k ≡ n = omega (arith, e) in ap (λ j. drop j xs) same
drop-drop (suc m) n zero xs e = ground arith
drop-drop (suc m) zero (suc k) [] e = refl
drop-drop (suc m) (suc n) (suc k) [] e = refl
drop-drop (suc m) n (suc k) (x ∷ xs) e = drop-drop m n k xs (omega (arith, e))

connector : IsConnector (λ req. ok (batch req)) rest
connector = record {
  batch = batch;
  reads = λ req. refl;
  rows = λ req. refl;
  by_key = λ req k e.
      let after = drop-drop (at req) req.limit (at req + req.limit) req.slice refl in
      (refl, ground (arith, k, after));
  by_pk = λ req k e.
      let after = drop-drop (at req) req.limit (at req + req.limit) req.slice refl in
      ground (arith, k, after);
}

abbrev formats : Formats
formats = record {
  rat_string = λ s. some s;
  json_text = λ s. none;
  sha256 = λ bytes. elim bytes [ [] ↦ 1 | b ∷ bs ↦ 7 + b ];
}

abbrev columns : List Column
columns = record { data_type = codes " UUID"; column_type = codes "uuid" } ∷ []

abbrev value : String → Row
value s = record { null = false; raw = codes s } ∷ []

abbrev null_row : Row
null_row = record { null = true; raw = [] } ∷ []

abbrev bytes_a : Bytes
bytes_a = row_bytes (some (codes "a") ∷ [])

abbrev bytes_null : Bytes
bytes_null = row_bytes (none ∷ [])

-- The same rows, the one table in one request and in capitals, the other in two.
abbrev whole_table : List (Request (List Row) ℕ)
whole_table =
    record {
      slice = value "A" ∷ null_row ∷ [];
      columns = [];
      use_keyset = true;
      cursor = [];
      after_pk = none;
      limit = 0;
    }
    ∷ []

abbrev slice_of : List Row → Request (List Row) ℕ
slice_of rows = record {
  slice = rows;
  columns = [];
  use_keyset = false;
  cursor = [];
  after_pk = none;
  limit = 0;
}

abbrev two_slices : List (Request (List Row) ℕ)
two_slices = slice_of (null_row ∷ []) ∷ slice_of (value "a" ∷ []) ∷ []

keyset_of_two :
    keyset_canonical_bounded
      (λ req. ok (batch req))
      formats
      columns
      columns
      1
      5
      ("id" ∷ [])
      (value "A" ∷ null_row ∷ [])
    ≡ done (ordered_checksum (bytes_a ∷ bytes_null ∷ []))
unfolding encode_row row_bytes
keyset_of_two =
    keyset_canonical_bounded-fnv (λ req. ok (batch req)) rest connector formats columns columns 1 5
      refl (value "A" ∷ null_row ∷ []) (bytes_a ∷ bytes_null ∷ []) "id" [] (omega arith)
      (row refl (row refl no_rows))

row_bytes-injective_example :
    Path (List (Option Bytes)) (some (codes "a") ∷ none ∷ []) (some (codes "a") ∷ none ∷ [])
row_bytes-injective_example =
    row_bytes-injective (some (codes "a") ∷ none ∷ []) (some (codes "a") ∷ none ∷ [])
      (omega arith, (tt, tt)) (omega arith, (tt, tt)) refl

-- FNV-1a of the two rows.
range_hash :
    range_canonical (λ req. ok (batch req)) formats columns columns 1 5 (null_row ∷ [])
    ≡ done (record { rows = 1; hash = codes "0a99c807b6f645b0" })
unfolding range_canonical encode_row row_bytes
range_hash = refl
