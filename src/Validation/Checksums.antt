-- ===== src/Validation/Checksums.antt =====
-- checksum.go: `AddRequest`, `UnorderedCanonicalRequests`, `RangeCanonical` and `KeysetCanonicalBounded`.
use Prim.Native.Nat.{bit_xor}
use mathlib.Core.Option.{map as map_option}
use dts.Common.{
  ℕ, zero, suc, String, Bool, true, false, ◌+◌, ◌*◌, ◌/◌, ◌%◌, ◌^◌, ◌==◌, not, if◌then◌else◌, List,
  [], ◌∷◌, ◌++◌, Option, none, some, Result, ok, err, length,
}
use dts.Common.Bytes.{Bytes, hex_digit}
use dts.Validation.Values.{Row, Column, Formats, canonical_row, row_bytes}
use dts.Validation.Scanning.{
  Request, Batch, Outcome, done, failed, panicked, running, is_empty, scan,
}

-- `Checksum`
pub record Checksum : Type 0 where
  pub rows : ℕ
  pub hash : Bytes

abbrev pub empty_checksum : Checksum
empty_checksum = record { rows = 0; hash = [] }

-- `%0…x` of a number that has at most so many digits.
abbrev pub to_hex : ℕ → ℕ → Bytes
to_hex zero v = []
to_hex (suc n) v = to_hex n (v / 16) ++ (hex_digit (v % 16) ∷ [])

-- `UnorderedAccumulator`, and the running hash of the other checksums, each with the count of rows.
pub record Hashed : Type 0 where
  pub rows : ℕ
  pub sum : ℕ

-- `NewUnorderedAccumulator`
abbrev pub new_unordered : Hashed
new_unordered = record { rows = 0; sum = 0 }

abbrev pub put_unordered : Formats → Hashed → Bytes → Hashed
put_unordered formats a bytes = record {
  rows = a.rows + 1;
  sum = (a.sum + formats.sha256 bytes) % 2 ^ 256;
}

-- FNV-1a with 64 bits.
unfoldable pub fnv : ℕ → Bytes → ℕ
fnv h [] = h
fnv h (b ∷ bs) = fnv (bit_xor h b * 1099511628211 % 2 ^ 64) bs

abbrev pub new_ordered : Hashed
new_ordered = record { rows = 0; sum = 14695981039346656037 }

unfoldable pub put_ordered : Hashed → Bytes → Hashed
unfolding fnv
put_ordered a bytes = record { rows = a.rows + 1; sum = fnv a.sum bytes }

unfoldable pub encode_row : Formats → List Column → Row → Option Bytes
unfolding canonical_row row_bytes
encode_row formats cols row = map_option row_bytes (canonical_row formats cols row)

abbrev pub normal_batch_rows : ℕ → ℕ
normal_batch_rows batch_rows = if batch_rows == 0 then 1000 else batch_rows

abbrev pub no_key : String
no_key = "keyset connector returned rows without last-key cursor"

abbrev pub same_count : List Column → List Column → Bool
same_count canonical_cols read_cols = length canonical_cols == length read_cols

module _ {S K : Type 0} where
  -- The cursor of the next batch, by the key and by the integer key.
  abbrev pub advance_key : Batch K → Request S K → Result String (Request S K)
  advance_key b req =
      if is_empty b.last_key then err no_key else ok (record req { cursor = b.last_key })

  abbrev pub advance_pk : Batch K → Request S K → Result String (Request S K)
  advance_pk b req = ok (record req { after_pk = some b.last_pk })

  abbrev pub advance_either : Batch K → Request S K → Result String (Request S K)
  advance_either b req = if req.use_keyset then advance_key b req else advance_pk b req

  module _ (read : Request S K → Result String (Batch K)) (formats : Formats)
      (read_cols canonical_cols : List Column) (batch_rows fuel : ℕ) where
    -- `AddRequest`, of a count of rows that is 0 where it is negative.
    unfoldable pub add_request : Request S K → Hashed → Outcome Hashed
    unfolding scan encode_row
    add_request template a =
        if not (same_count canonical_cols read_cols)
        then failed "canonical column count != read column count" a
        else scan read (encode_row formats canonical_cols) (put_unordered formats) advance_either
            fuel (record template { columns = read_cols; limit = normal_batch_rows batch_rows }) a

    abbrev and_then : Outcome Hashed → (Hashed → Outcome Hashed) → Outcome Hashed
    and_then (done a) k = k a
    and_then (failed e a) k = failed e a
    and_then panicked k = panicked
    and_then running k = running

    unfoldable pub add_requests : List (Request S K) → Hashed → Outcome Hashed
    unfolding add_request
    add_requests [] a = done a
    add_requests (template ∷ templates) a =
        and_then (add_request template a) (add_requests templates)

    abbrev pub finish : ℕ → Outcome Hashed → Outcome Checksum
    finish width (done a) = done (record { rows = a.rows; hash = to_hex width a.sum })
    finish width (failed e a) = failed e empty_checksum
    finish width panicked = panicked
    finish width running = running

    -- `UnorderedCanonicalRequests`
    unfoldable pub unordered_canonical_requests : List (Request S K) → Outcome Checksum
    unfolding add_requests
    unordered_canonical_requests requests = finish 64 (add_requests requests new_unordered)

    abbrev pub first_request : S → Bool → Request S K
    first_request slice use_keyset = record {
      slice = slice;
      columns = read_cols;
      use_keyset = use_keyset;
      cursor = [];
      after_pk = none;
      limit = normal_batch_rows batch_rows;
    }

    -- `RangeCanonical`, of the table and the range of keys in `slice`.
    unfoldable pub range_canonical : S → Outcome Checksum
    unfolding scan encode_row put_ordered
    range_canonical slice =
        if not (same_count canonical_cols read_cols)
        then failed "canonical column count != read column count" empty_checksum
        else finish 16 (
            scan read (encode_row formats canonical_cols) put_ordered advance_pk fuel
              (first_request slice false) new_ordered)

    -- `KeysetCanonicalBounded`, of the table, the keys and the bounds in `slice`.
    unfoldable pub keyset_canonical_bounded : List String → S → Outcome Checksum
    unfolding scan encode_row put_ordered
    keyset_canonical_bounded primary_keys slice =
        if is_empty primary_keys
        then failed "keyset validation requires primary keys" empty_checksum
        else (if not (same_count canonical_cols read_cols)
            then failed "canonical column count != read column count" empty_checksum
            else finish 16 (
                scan read (encode_row formats canonical_cols) put_ordered advance_key fuel
                  (first_request slice true) new_ordered))
