-- ===== src/Validation/Scanning.antt =====
-- checksum.go: the loop that the three checksums share, which reads a table batch by batch.
use dts.Common.{
  ℕ, zero, suc, String, Bool, true, false, ltb, if◌then◌else◌, List, [], ◌∷◌, Option, none, some,
  Result, ok, err, length,
}
use dts.Common.Bytes.{Bytes}
use dts.Validation.Values.{Row, Column}

-- `connector.ReadBatchRequest`: `AfterPK` if `HasAfter`, of the type `K` of integer keys; and in `slice`
-- what no batch changes: the table, the bounds, the partition, the hash bucket and the condition.
pub record Request (S K : Type 0) : Type 0 where
  pub slice : S
  pub columns : List Column
  pub use_keyset : Bool
  pub cursor : Row
  pub after_pk : Option K
  pub limit : ℕ

-- `connector.RowBatch`
pub record Batch (K : Type 0) : Type 0 where
  pub rows : List Row
  pub last_pk : K
  pub last_key : Row

-- How a scan ends: well, with an error, with a panic, or not within its fuel.
pub data Outcome (A : Type 0) : Type 0 where
  done : A → Outcome A
  failed : String → A → Outcome A
  panicked : Outcome A
  running : Outcome A

abbrev pub is_empty : {A : Type 0} → List A → Bool
is_empty [] = true
is_empty (x ∷ xs) = false

module _ {S K A : Type 0} (read : Request S K → Result String (Batch K))
    (encode : Row → Option Bytes) (put : A → Bytes → A)
    (advance : Batch K → Request S K → Result String (Request S K)) where
  abbrev add_next : Option Bytes → (Bytes → Option A) → Option A
  add_next none k = none
  add_next (some b) k = k b

  -- `for _, row := range b.Rows`
  unfoldable pub add_rows : A → List Row → Option A
  add_rows a [] = some a
  add_rows a (r ∷ rs) = add_next (encode r) (λ b. add_rows (put a b) rs)

  -- From the new cursor on: a batch that is not full is the last one.
  abbrev on_advanced :
      (Request S K → A → Outcome A)
      → Request S K
      → Batch K
      → A
      → Result String (Request S K)
      → Outcome A
  on_advanced k req b a (err e) = failed e a
  on_advanced k req b a (ok next) = if ltb (length b.rows) req.limit then done a else k next a

  abbrev on_added : (Request S K → A → Outcome A) → Request S K → Batch K → Option A → Outcome A
  on_added k req b none = panicked
  on_added k req b (some a) = on_advanced k req b a (advance b req)

  abbrev on_read :
      (Request S K → A → Outcome A) → Request S K → A → Result String (Batch K) → Outcome A
  on_read k req a (err e) = failed e a
  on_read k req a (ok b) = if is_empty b.rows then done a else on_added k req b (add_rows a b.rows)

  -- `for { b, err := c.ReadBatch(ctx, req) ... }`, within so many batches.
  unfoldable pub scan : ℕ → Request S K → A → Outcome A
  unfolding add_rows
  scan zero req a = running
  scan (suc n) req a = on_read (scan n) req a (read req)
