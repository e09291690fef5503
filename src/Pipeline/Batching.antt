-- ===== src/Pipeline/Batching.antt =====
-- full.go: `normalizeConfig`, `clamp`, and how `Run` adapts the size of its batches. A size or bound that
-- is not positive is 0.
use dts.Common.{
  ℕ, String, Bool, ◌+◌, ◌*◌, ◌/◌, ◌≤◌, ◌&&◌, ◌||◌, not, ◌==◌, ◌=s=◌, ltb, leb, if◌then◌else◌, arith,
}

-- `Config`, with what concerns the batches.
pub record Config : Type 0 where
  pub initial_batch_rows : ℕ
  pub min_batch_rows : ℕ
  pub max_batch_rows : ℕ
  pub buffer_batches : ℕ
  pub adaptive : Bool

-- `Control`, likewise.
pub record Control : Type 0 where
  pub level : String
  pub max_batch_rows : ℕ
  pub target_batch_rows : ℕ

-- `Batch`, without the payload that connectors exchange.
pub record Batch : Type 0 where
  pub rows : ℕ
  pub bytes : ℕ
  pub requested_rows : ℕ
  pub cursor : String
  pub read_ms : ℕ

-- `clamp`
abbrev pub clamp : ℕ → ℕ → ℕ → ℕ
clamp v lo hi = if ltb v lo then lo else (if ltb hi v then hi else v)

-- A value that is not positive is replaced.
abbrev pub or_default : ℕ → ℕ → ℕ
or_default v default_ = if v == 0 then default_ else v

-- `normalizeConfig`
unfoldable pub normalize_config : Config → Config
normalize_config c =
    let max = or_default c.max_batch_rows 5000 in
    let low = or_default c.min_batch_rows 50 in
    let min = if ltb max low then max else low in
    let first = or_default c.initial_batch_rows 500 in
    let raised = if ltb first min then min else first in
    let buffer = or_default c.buffer_batches 2 in
    record c {
      initial_batch_rows = if ltb max raised then max else raised;
      min_batch_rows = min;
      max_batch_rows = max;
      buffer_batches = if ltb 32 buffer then 32 else buffer;
    }

-- The size that the control plane asks for, and its upper bound.
abbrev pub controlled : Config → Control → ℕ → ℕ
controlled cfg control batch_rows =
    let current = clamp batch_rows cfg.min_batch_rows cfg.max_batch_rows in
    let asked =
      (if ltb 0 control.target_batch_rows
        then clamp control.target_batch_rows cfg.min_batch_rows cfg.max_batch_rows
        else current) in
    if ltb 0 control.max_batch_rows && ltb control.max_batch_rows asked
    then control.max_batch_rows
    else asked

-- The switch over the time that the batch took: twice as many rows, or half.
abbrev pub adapted : Config → Batch → ℕ → ℕ → ℕ
adapted cfg b write_ms current =
    let total_ms = b.read_ms + write_ms in
    if leb b.requested_rows b.rows
      && ltb 0 total_ms
      && ltb total_ms 1500
      && ltb current cfg.max_batch_rows
    then current * 2
    else (if ltb 8000 total_ms && ltb cfg.min_batch_rows current then current / 2 else current)

-- What `Run` stores in `batchRows` after a commit.
unfoldable pub next_batch_rows : Config → Control → Batch → ℕ → ℕ → ℕ
next_batch_rows cfg control b write_ms batch_rows =
    let current = controlled cfg control batch_rows in
    let backpressured = control.level =s= "WARN" || control.level =s= "CRITICAL" in
    let next =
      (if cfg.adaptive && control.target_batch_rows == 0 && not backpressured
        then adapted cfg b write_ms current
        else current) in
    clamp next cfg.min_batch_rows cfg.max_batch_rows

clamp_within : (v lo hi : ℕ) → lo ≤ hi → (lo ≤ clamp v lo hi) × (clamp v lo hi ≤ hi)
clamp_within v lo hi h = (ground (arith, h), ground (arith, h))

-- A normal configuration: positive bounds in order, the first size within them, 1 to 32 buffers.
pub record IsNormal (c : Config) : Type 0 where
  pub positive : 1 ≤ c.min_batch_rows
  pub low : c.min_batch_rows ≤ c.initial_batch_rows
  pub high : c.initial_batch_rows ≤ c.max_batch_rows
  pub buffered : 1 ≤ c.buffer_batches
  pub bounded : c.buffer_batches ≤ 32

normalize_config-IsNormal : (c : Config) → IsNormal (normalize_config c)
unfolding normalize_config
normalize_config-IsNormal c = record {
  positive = ground arith;
  low = ground arith;
  high = ground arith;
  buffered = ground arith;
  bounded = ground arith;
}

-- Whatever the configuration says, `Run` works with positive bounds in order, a first size within them,
-- and 1 to 32 buffers; and whatever the control plane answers and however long a batch took, the next
-- size lies within the bounds, so that it is never 0.
pub next_batch_rows_lem :
    (c : Config) (control : Control) (b : Batch) (write_ms batch_rows : ℕ)
    → let cfg = normalize_config c in
      IsNormal cfg
      × (cfg.min_batch_rows ≤ next_batch_rows cfg control b write_ms batch_rows)
      × (next_batch_rows cfg control b write_ms batch_rows ≤ cfg.max_batch_rows)
unfolding next_batch_rows
next_batch_rows_lem c control b write_ms batch_rows =
    let n = normalize_config-IsNormal c in
    let cfg = normalize_config c in
    let within =
      clamp_within _ cfg.min_batch_rows cfg.max_batch_rows (omega (arith, n.low, n.high)) in
    (n, within.0, within.1)
