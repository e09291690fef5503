-- ===== src/Lifecycle/Staging.antt =====
-- service.go: `stageCDCEvents`, which makes a source transaction durable before its position is
-- acknowledged. The in-memory repository reports no storage level, so that test passes.
pub mod Durability
use Prim.Native.Char.{code}
use dts.Common.{
  ℕ, String, Bool, true, false, ◌+◌, ◌*◌, ◌^◌, ◌&&◌, ◌||◌, ◌==◌, ltb, leb, if◌then◌else◌, List, [],
  ◌∷◌, Option, none, some, Result, ok, err, length, last?,
}
use dts.Domain.{CdcEvent, SpoolRecord, SpoolStatus}
use dts.Store.Defs.{Store}
use dts.Store.Spool.{create_cdc_spool, cdc_spool_stats}
use dts.Lifecycle.Service.{Fault, refused}

abbrev pub Events : Type 0
Events = List (CdcEvent String)

-- `unicode.IsSpace` of a code point.
abbrev pub is_space : ℕ → Bool
is_space c =
    leb 9 c && leb c 13
    || c == 32
    || c == 133
    || c == 160
    || c == 5760
    || leb 8192 c && leb c 8202
    || c == 8232
    || c == 8233
    || c == 8239
    || c == 8287
    || c == 12288

-- `strings.TrimSpace(s) == ""`
unfoldable pub is_blank : String → Bool
is_blank String.[] = true
is_blank (String.◌∷◌ c s) = let rest = is_blank s in if is_space (code c) then rest else false

-- What the environment decides: the limits (0 is none), the faults injected, the length of the JSON text
-- of a transaction, and the digest of five texts that a spool id is made of.
pub record Settings : Type 0 where
  pub max_transaction_bytes : ℕ
  pub max_pending_bytes : ℕ
  pub fault_before_persist : Option String
  pub fault_after_persist : Option String
  pub json_bytes : Events → Option ℕ
  pub digest : String → String → String → String → String → String

-- `CDCApplyResult` of a staged transaction.
pub record ApplyResult : Type 0 where
  pub last_event_id : String
  pub position_type : String
  pub position_value : String
  pub staged : Bool
  pub spool_sequence : ℕ

-- `cdcSpoolID`
abbrev pub cdc_spool_id : Settings → String → String → CdcEvent String → String
cdc_spool_id settings task_id direction last =
    settings.digest task_id direction last.position_type last.position_value last.resource

-- The record that is created; `CreateCDCSpool` gives it its sequence.
abbrev pub new_record :
    Settings → ℕ → String → String → Events → ℕ → CdcEvent String → SpoolRecord (CdcEvent String)
new_record settings now task_id direction events bytes last = record {
  id = cdc_spool_id settings task_id direction last;
  task_id = task_id;
  direction = direction;
  sequence = 0;
  position_type = last.position_type;
  position_value = last.position_value;
  resource = last.resource;
  events = events;
  event_count = length events;
  payload_bytes = bytes;
  status = SpoolStatus.pending;
  created_at = now;
  applied_at = 0;
}

-- A result and the store after it.
abbrev pub Staged : Type 0
Staged = Result Fault ApplyResult × Store (CdcEvent String)

-- From `CreateCDCSpool` on.
unfoldable pub persist :
    Settings → ℕ → String → String → Events → ℕ → CdcEvent String → Store (CdcEvent String) → Staged
unfolding create_cdc_spool
persist settings now task_id direction events bytes last s =
    let created =
      create_cdc_spool settings.json_bytes s
        (new_record settings now task_id direction events bytes last) in
    elim settings.fault_after_persist [
      | some e ↦ (err (refused e), created.0)
      | none ↦ (
        ok (record {
          last_event_id = last.id;
          position_type = last.position_type;
          position_value = last.position_value;
          staged = true;
          spool_sequence = created.1;
        }),
        created.0,
      )
    ]

-- The limits, and the fault before.
unfoldable pub check_limits :
    Settings → ℕ → String → String → Events → ℕ → CdcEvent String → Store (CdcEvent String) → Staged
unfolding persist cdc_spool_stats
check_limits settings now task_id direction events bytes last s =
    let max = settings.max_transaction_bytes in
    let capacity = settings.max_pending_bytes in
    if ltb 0 max && ltb max bytes
    then (err (refused "CDC transaction exceeds its limit; source position is not acknowledged"), s)
    else (if ltb 0 capacity
          && ltb capacity ((cdc_spool_stats s task_id direction).pending_bytes + bytes)
        then (
          err (refused "CDC spool capacity would be exceeded; source position is not acknowledged"),
          s,
        )
        else elim settings.fault_before_persist [
          | some e ↦ (err (refused e), s)
          | none ↦ persist settings now task_id direction events bytes last s
        ])

-- `stageCDCEvents`
unfoldable pub stage_cdc_events :
    Settings → ℕ → String → String → Events → Store (CdcEvent String) → Staged
unfolding is_blank check_limits
stage_cdc_events settings now task_id direction events s = elim (last? events) [
  | none ↦ (err (refused "CDC spool transaction is empty"), s)
  | some last ↦
      if is_blank last.position_value
      then (err (refused "CDC spool requires a durable source position"), s)
      else elim (settings.json_bytes events) [
        | none ↦ (err (refused "marshal CDC spool transaction"), s)
        | some bytes ↦ check_limits settings now task_id direction events bytes last s
      ]
]
