-- ===== src/PgOutput/Decoder.antt =====
-- parser.go: `Decoder` and `Push`. An error leaves the decoder as it was.
use dts.Common.{
  ℕ, false, ◌||◌, ◌==◌, if◌then◌else◌, List, [], ◌∷◌, ◌++◌, map, Option, none, some, Result, ok,
  err,
}
use dts.Common.Bytes.{Bytes}
use dts.Domain.{CdcEvent, CdcField, CdcOperation}
use dts.PgOutput.Wire.{
  PgError, empty_message, commit_without_begin, outside_transaction, unknown_relation, wrong_tag,
  unsupported_message, Parse, ◌>>=◌, give, raise, u8, u32, u64, keepalive, xlog, parse_copy_data,
}
use dts.PgOutput.Text.{format_lsn, format_uint, unix_milli}
use dts.PgOutput.Tuples.{Relation, parse_tuple, parse_relation, tuple_fields}

-- `Transaction`; the commit time is PostgreSQL's microseconds.
pub record Transaction : Type 0 where
  pub xid : ℕ
  pub events : List (CdcEvent Bytes)
  pub commit_lsn : ℕ
  pub end_lsn : ℕ
  pub commit_time : ℕ

-- `Decoder`
pub record Decoder : Type 0 where
  pub relations : List (ℕ × Relation)
  pub current : Option Transaction
  pub position_type : Bytes
  pub id_prefix : Bytes

-- `d.relations[id]` and `d.relations[id] = r`
unfoldable pub find_relation : ℕ → List (ℕ × Relation) → Option Relation
find_relation id [] = none
find_relation id ((k, r) ∷ relations) = if k == id then some r else find_relation id relations

unfoldable pub set_relation : ℕ → Relation → List (ℕ × Relation) → List (ℕ × Relation)
set_relation id r [] = (id, r) ∷ []
set_relation id r ((k, old) ∷ relations) =
    if k == id then (id, r) ∷ relations else (k, old) ∷ set_relation id r relations

-- What the cases of `Push` return.
abbrev pub Step : Type 0
Step = Option Transaction × Decoder

-- What COMMIT writes into every event.
unfoldable pub stamp : Bytes → Bytes → ℕ → CdcEvent Bytes → CdcEvent Bytes
stamp position_type position time e = record e {
  position_type = position_type;
  position_value = position;
  source_timestamp_ms = time;
}

-- The relation of a message.
unfoldable pub get_relation : Decoder → ℕ → Parse Relation
unfolding find_relation
get_relation d id = elim (find_relation id d.relations) [
  | none ↦ raise (unknown_relation id)
  | some r ↦ give r
]

-- The event of a message, before its position is known.
unfoldable pub new_event :
    Decoder
    → ℕ
    → CdcOperation
    → Relation
    → List (CdcField Bytes)
    → List (CdcField Bytes)
    → CdcEvent Bytes
unfolding format_uint
new_event d wal_start operation r before after = record {
  id = d.id_prefix ++ (58 ∷ format_uint wal_start);
  operation = operation;
  source_schema = r.namespace;
  source_table = r.name;
  before = before;
  after = after;
  position_type = [];
  position_value = [];
  resource = [];
  source_timestamp_ms = 0;
}

-- `d.current.Events = append(d.current.Events, ...)`
unfoldable pub add_event : Decoder → CdcEvent Bytes → Parse Step
add_event d e = elim d.current [
  | none ↦ raise outside_transaction
  | some t ↦ give (none, record d { current = some (record t { events = t.events ++ (e ∷ []) }) })
]

-- The cases of `Push`: BEGIN,
unfoldable pub on_begin : Decoder → Parse Step
unfolding u64 u32
on_begin d = do
  final ← u64
  commit ← u64
  xid ← u32
  give (
    none,
    record d {
      current =
          some
            (record { xid = xid; events = []; commit_lsn = 0; end_lsn = 0; commit_time = commit });
    },
  )

-- COMMIT,
unfoldable pub commit_current : Decoder → ℕ → ℕ → ℕ → Parse Step
unfolding stamp format_lsn unix_milli
commit_current d commit end time = elim d.current [
  | none ↦ raise commit_without_begin
  | some t ↦ give (
    some (record t {
      events = map (stamp d.position_type (format_lsn end) (unix_milli time)) t.events;
      commit_lsn = commit;
      end_lsn = end;
      commit_time = time;
    }),
    record d { current = none },
  )
]

unfoldable pub on_commit : Decoder → Parse Step
unfolding u8 u64 commit_current
on_commit d = do flags ← u8; commit ← u64; end ← u64; time ← u64; commit_current d commit end time

-- a relation,
unfoldable pub on_relation : Decoder → Parse Step
unfolding parse_relation set_relation
on_relation d = do
  r ← parse_relation
  give (none, record d { relations = set_relation r.id r d.relations })

-- INSERT, with `relationAndTuple`,
unfoldable pub on_insert : Decoder → ℕ → Parse Step
unfolding u8 u32 get_relation parse_tuple tuple_fields new_event add_event
on_insert d wal_start = do
  id ← u32
  r ← get_relation d id
  tag ← u8
  t ← parse_tuple
  add_event d (new_event d wal_start CdcOperation.insert r [] (tuple_fields r t false))

-- UPDATE,
unfoldable pub on_update : Decoder → ℕ → Parse Step
unfolding u8 u32 get_relation parse_tuple tuple_fields new_event add_event
on_update d wal_start = do
  id ← u32
  r ← get_relation d id
  tag ← u8
  (before, tag') ←
      (if tag == 75 || tag == 79
        then (do before ← parse_tuple; next ← u8; give (before, next))
        else give ([], tag))
  (if tag' == 78
      then (do
        after ← parse_tuple
        add_event d (
            new_event d wal_start CdcOperation.update r (tuple_fields r before (tag == 75))
              (tuple_fields r after false)))
      else raise (wrong_tag tag'))

-- and DELETE.
unfoldable pub on_delete : Decoder → ℕ → Parse Step
unfolding u8 u32 get_relation parse_tuple tuple_fields new_event add_event
on_delete d wal_start = do
  id ← u32
  r ← get_relation d id
  tag ← u8
  (if tag == 75 || tag == 79
      then (do
        before ← parse_tuple
        add_event d
            (new_event d wal_start CdcOperation.delete r (tuple_fields r before (tag == 75)) []))
      else raise (wrong_tag tag))

-- The switch over the message's type.
unfoldable pub on_message : Decoder → ℕ → ℕ → Parse Step
unfolding on_begin on_commit on_relation on_insert on_update on_delete
on_message d wal_start type_ =
    if type_ == 66
    then on_begin d
    else (if type_ == 67
        then on_commit d
        else (if type_ == 82
            then on_relation d
            else (if type_ == 73
                then on_insert d wal_start
                else (if type_ == 85
                    then on_update d wal_start
                    else (if type_ == 68
                        then on_delete d wal_start
                        else (if type_ == 89 || type_ == 79 || type_ == 77 || type_ == 84
                            then give (none, d)
                            else raise (unsupported_message type_)))))))

-- The rest of `Push`, for the plugin's message.
unfoldable pub on_plugin : Decoder → ℕ → Bytes → Result PgError Step
unfolding on_message
on_plugin d wal_start [] = err empty_message
on_plugin d wal_start (type_ ∷ c) = elim (on_message d wal_start type_ c) [
  | ok (step, c') ↦ ok step
  | err e ↦ err e
]

-- `Push`
unfoldable pub push : Decoder → Bytes → Result PgError Step
unfolding parse_copy_data on_plugin
push d data_ = elim (parse_copy_data data_) [
  | err e ↦ err e
  | ok keepalive ↦ ok (none, d)
  | ok (xlog x) ↦ on_plugin d x.wal_start x.plugin
]
