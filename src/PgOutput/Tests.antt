-- ===== src/PgOutput/Tests.antt =====
-- The theorems on pgoutput at a concrete stream: a relation, BEGIN, one INSERT, COMMIT.
use dts.Common.{ℕ, false, ◌≡◌, refl, List, [], ◌∷◌, ◌++◌, none, some, ok, All, arith}
use dts.Common.Bytes.{Bytes, codes}
use dts.Domain.{CdcEvent, CdcOperation}
use dts.PgOutput.Wire.{◌>>=◌, bytes, u8, u16, u32, u64, cstr, parse_copy_data}
use dts.PgOutput.Text.{digits, format_lsn, format_uint, unix_milli}
use dts.PgOutput.Tuples.{
  Relation, TupleValue, parse_data, parse_value, parse_values, parse_tuple, key_columns,
  columns_for, fields_of, tuple_fields, parse_columns, parse_relation,
}
use dts.PgOutput.Decoder.{
  Transaction, Decoder, find_relation, set_relation, stamp, get_relation, new_event, add_event,
  on_begin, commit_current, on_commit, on_relation, on_insert, on_message, on_plugin, push,
}
use dts.PgOutput.Releasing.{IsStep, push-IsStep}
use dts.PgOutput.Stamping.{IsStamped, push_all, push_all-IsStamped}
use dts.PgOutput.RoundTrip.{is_null, is_text, encode_tuple, parse_tuple-encode}

abbrev zeros : Bytes
zeros = 0 ∷ 0 ∷ 0 ∷ 0 ∷ 0 ∷ 0 ∷ 0 ∷ 0 ∷ []

abbrev eight : ℕ → Bytes
eight n = 0 ∷ 0 ∷ 0 ∷ 0 ∷ 0 ∷ 0 ∷ 0 ∷ n ∷ []

-- XLogData at WAL position 5.
abbrev wrap : Bytes → Bytes
wrap plugin = 119 ∷ eight 5 ++ zeros ++ zeros ++ plugin

abbrev relation_message : Bytes
relation_message =
    82 ∷ 0 ∷ 0 ∷ 0 ∷ 1 ∷ 115 ∷ 0 ∷ 116 ∷ 0 ∷ 100 ∷ 0 ∷ 1 ∷ 1 ∷ 99 ∷ 0 ∷ 0 ∷ 0 ∷ 0 ∷ 23 ∷ 0 ∷ 0 ∷ 0
    ∷ 0 ∷ []

abbrev begin_message : Bytes
begin_message = 66 ∷ zeros ++ zeros ++ (0 ∷ 0 ∷ 0 ∷ 9 ∷ [])

abbrev insert_message : Bytes
insert_message = 73 ∷ 0 ∷ 0 ∷ 0 ∷ 1 ∷ 78 ∷ 0 ∷ 1 ∷ 116 ∷ 0 ∷ 0 ∷ 0 ∷ 1 ∷ 55 ∷ []

abbrev commit_message : Bytes
commit_message = 67 ∷ 0 ∷ eight 16 ++ eight 27 ++ eight 0

abbrev fresh : Decoder
fresh = record {
  relations = [];
  current = none;
  position_type = codes "LSN";
  id_prefix = codes "pg";
}

abbrev relation : Relation
relation = record {
  id = 1;
  namespace = 115 ∷ [];
  name = 116 ∷ [];
  replica_identity = 100;
  columns = record { flags = 1; name = 99 ∷ []; type_oid = 23; type_modifier = 0 } ∷ [];
}

abbrev known : Decoder
known = record fresh { relations = (1, relation) ∷ [] }

abbrev event : Bytes → Bytes → ℕ → CdcEvent Bytes
event position_type position time = record {
  id = codes "pg:5";
  operation = CdcOperation.insert;
  source_schema = 115 ∷ [];
  source_table = 116 ∷ [];
  before = [];
  after = record { column = 99 ∷ []; null = false; value = 55 ∷ []; encoding = [] } ∷ [];
  position_type = position_type;
  position_value = position;
  resource = [];
  source_timestamp_ms = time;
}

abbrev open_transaction : Transaction
open_transaction = record {
  xid = 9;
  events = event [] [] 0 ∷ [];
  commit_lsn = 0;
  end_lsn = 0;
  commit_time = 0;
}

abbrev transaction : Transaction
transaction = record {
  xid = 9;
  events = event (codes "LSN") (codes "0/1B") 946684800000 ∷ [];
  commit_lsn = 16;
  end_lsn = 27;
  commit_time = 0;
}

committed :
    push (record known { current = some open_transaction }) (wrap commit_message)
    ≡ ok (some transaction, known)
unfolding push parse_copy_data on_plugin on_message on_commit commit_current stamp format_lsn digits
    unix_milli u8 u64 bytes ◌>>=◌
committed = refl

push-IsStep_example :
    IsStep (record known { current = some open_transaction }) (some transaction) known
push-IsStep_example =
    push-IsStep (record known { current = some open_transaction }) (wrap commit_message) committed

stream :
    push_all fresh
      (wrap relation_message ∷ wrap begin_message ∷ wrap insert_message ∷ wrap commit_message ∷ [])
    ≡ ok (transaction ∷ [], known)
unfolding push_all push parse_copy_data on_plugin on_message on_begin on_relation on_insert
    on_commit commit_current stamp format_lsn format_uint digits unix_milli u8 u16 u32 u64 bytes
    cstr ◌>>=◌ parse_relation parse_columns parse_tuple parse_values parse_value parse_data
    set_relation get_relation find_relation new_event add_event tuple_fields columns_for key_columns
    fields_of
stream = refl

push_all-IsStamped_example : All (IsStamped (codes "LSN")) (transaction ∷ [])
push_all-IsStamped_example =
    push_all-IsStamped fresh
      (wrap relation_message ∷ wrap begin_message ∷ wrap insert_message ∷ wrap commit_message ∷ [])
      stream

abbrev tuple : List TupleValue
tuple = record { kind = 110; data_ = [] } ∷ record { kind = 116; data_ = 55 ∷ [] } ∷ []

parse_tuple-encode_example : parse_tuple (encode_tuple tuple ++ (1 ∷ [])) ≡ ok (tuple, 1 ∷ [])
parse_tuple-encode_example =
    parse_tuple-encode tuple (1 ∷ []) (is_null, (is_text (55 ∷ []) (omega arith), tt)) (omega arith)
