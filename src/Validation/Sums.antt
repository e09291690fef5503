-- ===== src/Validation/Sums.antt =====
-- checksum.go: the checksum of an unordered scan is a sum over its rows, whatever their order and batches.
use mathlib.Core.List.{Perm, foldr}
use mathlib.Core.List.Perm
use native.Mathlib.Nat.{mod-add-mod}
use dts.Common.{
  ℕ, String, true, false, ◌+◌, ◌%◌, ◌^◌, ◌<◌, ◌≡◌, refl, ◌∙◌, ap, List, [], ◌∷◌, ◌++◌, some, Result,
  length, arith, Bool-cases, inl, inr, if◌then◌else◌,
}
use dts.Common.Bytes.{Bytes}
use dts.Validation.Values.{Row, Column, Formats}
use dts.Validation.Scanning.{Request, Batch, done}
use dts.Validation.Checksums.{
  Hashed, put_unordered, encode_row, normal_batch_rows, advance_either, advance_key, advance_pk,
  add_request, add_requests, same_count, unordered_canonical_requests, to_hex, finish,
}
use dts.Validation.Paging.{IsConnector, IsAdvancing, IsEncoded, puts, scan-puts}

-- The sum of a measure over a list.
abbrev pub total : (Bytes → ℕ) → List Bytes → ℕ
total f bs = foldr (λ b n. f b + n) 0 bs

total-append : (f : Bytes → ℕ) (xs ys : List Bytes) → total f (xs ++ ys) ≡ total f xs + total f ys
total-append f [] ys = omega arith
total-append f (x ∷ xs) ys = omega (arith, total-append f xs ys)

pub normal-positive : (batch_rows : ℕ) → 0 < normal_batch_rows batch_rows
normal-positive batch_rows = ground arith

-- Rows and sums that are equal.
pub hashed_eq :
    {r r' s s' : ℕ}
    → r ≡ r'
    → s ≡ s'
    → Path Hashed (record { rows = r; sum = s }) (record { rows = r'; sum = s' })
hashed_eq p q = λ i. record { rows = p i; sum = q i }

puts-summed :
    (m : ℕ) (f : Bytes → ℕ) (rows sum : ℕ) (bs : List Bytes)
    → puts
        (λ (a : Hashed) (b : Bytes). record { rows = a.rows + 1; sum = (a.sum + f b) % m })
        (record { rows = rows; sum = sum % m })
        bs
      ≡ record { rows = rows + total (λ b. 1) bs; sum = (sum + total f bs) % m }
unfolding puts
puts-summed m f rows sum [] = hashed_eq (omega arith) (ap (λ x. x % m) (omega arith))
puts-summed m f rows sum (b ∷ bs) = rw (mod-add-mod sum m (f b)) (
    puts-summed m f (rows + 1) (sum + f b) bs
    ∙ hashed_eq (omega arith) (ap (λ x. x % m) (omega arith)))

module _ {S K : Type 0} (read : Request S K → Result String (Batch K))
    (rest : Request S K → List Row) (connector : IsConnector read rest) where
  advance_either-IsAdvancing : IsAdvancing read rest (λ req. Unit) advance_either connector.batch
  advance_either-IsAdvancing = record {
    next = λ req.
        if req.use_keyset
        then record req { cursor = (connector.batch req).last_key }
        else record req { after_pk = some (connector.batch req).last_pk };
    keeps = λ req fits. tt;
    advances = λ req fits e. elim (Bool-cases req.use_keyset) [
      | inl k ↦
          let (stands, after) = connector.by_key req k e in
          (ground (arith, k, stands), ground (arith, k, after), ground (arith, k))
      | inr k ↦ (ground (arith, k), ground (arith, k, connector.by_pk req k e), ground (arith, k))
    ];
  }

  pub advance_key-IsAdvancing :
      IsAdvancing read rest (λ req. req.use_keyset ≡ true) advance_key connector.batch
  advance_key-IsAdvancing = record {
    next = λ req. record req { cursor = (connector.batch req).last_key };
    keeps = λ req fits. fits;
    advances = λ req fits e.
        rw ((connector.by_key req fits e).0) (refl, (connector.by_key req fits e).1, refl);
  }

  pub advance_pk-IsAdvancing :
      IsAdvancing read rest (λ req. req.use_keyset ≡ false) advance_pk connector.batch
  advance_pk-IsAdvancing = record {
    next = λ req. record req { after_pk = some (connector.batch req).last_pk };
    keeps = λ req fits. fits;
    advances = λ req fits e. (refl, connector.by_pk req fits e, refl);
  }

  module _ (formats : Formats) (read_cols canonical_cols : List Column) (batch_rows fuel : ℕ) where
    -- The request that is sent first.
    abbrev pub prepared : Request S K → Request S K
    prepared template = record template {
      columns = read_cols;
      limit = normal_batch_rows batch_rows;
    }

    -- The bytes of the rows of some requests, with enough fuel for each.
    pub data IsSliced : List (Request S K) → List Bytes → Type 0 where
      no_slices : IsSliced [] []
      slice :
          {t : Request S K} {ts : List (Request S K)} {bs more : List Bytes}
          → length (rest (prepared t)) < fuel
          → IsEncoded (encode_row formats canonical_cols) (rest (prepared t)) bs
          → IsSliced ts more
          → IsSliced (t ∷ ts) (bs ++ more)

    module _ (counts : same_count canonical_cols read_cols ≡ true) where
      add_request-summed :
          (t : Request S K) (bs : List Bytes) (rows sum : ℕ)
          → length (rest (prepared t)) < fuel
          → IsEncoded (encode_row formats canonical_cols) (rest (prepared t)) bs
          → add_request read formats read_cols canonical_cols batch_rows fuel t
              (record { rows = rows; sum = sum % 2 ^ 256 })
            ≡ done (record {
              rows = rows + total (λ b. 1) bs;
              sum = (sum + total formats.sha256 bs) % 2 ^ 256;
            })
      unfolding add_request
      add_request-summed t bs rows sum enough h = rw counts (
          scan-puts read (encode_row formats canonical_cols) (put_unordered formats) advance_either
            rest connector (λ req. Unit) advance_either-IsAdvancing fuel (prepared t) _ bs tt
            (normal-positive batch_rows) enough h
          ∙ ap done (puts-summed (2 ^ 256) formats.sha256 rows sum bs))

      add_requests-summed :
          {ts : List (Request S K)} {bs : List Bytes} (rows sum : ℕ)
          → IsSliced ts bs
          → add_requests read formats read_cols canonical_cols batch_rows fuel ts
              (record { rows = rows; sum = sum % 2 ^ 256 })
            ≡ done (record {
              rows = rows + total (λ b. 1) bs;
              sum = (sum + total formats.sha256 bs) % 2 ^ 256;
            })
      unfolding add_requests
      add_requests-summed rows sum no_slices =
          ap done (hashed_eq (omega arith) (ap (λ x. x % 2 ^ 256) (omega arith)))
      add_requests-summed rows sum (slice {t = t} {bs = bs} {more = more} enough h sliced) =
          rw (add_request-summed t bs rows sum enough h) (
            add_requests-summed (rows + total (λ b. 1) bs) (sum + total formats.sha256 bs) sliced
            ∙ ap done (
                hashed_eq (omega (arith, total-append (λ b. 1) bs more))
                  (ap (λ x. x % 2 ^ 256) (omega (arith, total-append formats.sha256 bs more)))))

      -- The checksum of `UnorderedCanonicalRequests` is the number of rows of all requests, and the
      -- sum of their digests modulo 2^256.
      pub unordered_canonical_requests-total :
          (ts : List (Request S K)) (bs : List Bytes)
          → IsSliced ts bs
          → unordered_canonical_requests read formats read_cols canonical_cols batch_rows fuel ts
            ≡ done (record {
              rows = total (λ b. 1) bs;
              hash = to_hex 64 (total formats.sha256 bs % 2 ^ 256);
            })
      unfolding unordered_canonical_requests
      unordered_canonical_requests-total ts bs sliced =
          ap (finish read formats read_cols canonical_cols batch_rows fuel 64) (
            add_requests-summed 0 0 sliced
            ∙ ap done (hashed_eq (omega arith) (ap (λ x. x % 2 ^ 256) (omega arith))))
