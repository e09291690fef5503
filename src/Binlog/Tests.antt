-- ===== src/Binlog/Tests.antt =====
-- The theorems on the binary log at concrete events: BEGIN, two row events, XID.
use dts.Common.{
  ℕ, ◌≡◌, ◌≢◌, ◌⊎◌, ◌↔◌, ◌^◌, refl, List, [], ◌∷◌, ◌++◌, Option, none, some, ok, err, inl, inr,
  arith,
}
use dts.Common.Bytes.{Bytes, codes, to_le}
use dts.Binlog.Events.{Event, parse_query, parse_xid, is_word, upper_all}
use dts.Common.Bytes.{trim_space, trim_left}
use dts.Binlog.Rows.{parse_rows, panic, parse_rows_panic}
use dts.Binlog.Assembler.{Transaction, Assembler, push, push_each, on_query, on_rows, close}
use dts.Binlog.Conserving.{rows_of, IsDropping, push_lem}
use dts.Binlog.Gtid.{
  Interval, normalize_intervals, sort_intervals, insert_sorted, less, merge_loop, extend,
}
use dts.Binlog.Gtid.Meaning.{covers}
use dts.Binlog.Gtid.Canonical.{normalize_intervals_iff}
use dts.Binlog.Streams.{AreBracketed, ended, next, all_rows, only_rows, push_each-rows}

abbrev event : ℕ → ℕ → Bytes → Event
event type_ pos payload = record {
  header = record {
    timestamp = 0;
    type_ = type_;
    server_id = 1;
    event_size = 19;
    log_pos = pos;
    flags = 0;
  };
  payload = payload;
}

-- A query event with the empty schema.
abbrev query : ℕ → Bytes → Event
query pos sql = event 2 pos (to_le 8 0 ++ (0 ∷ 0 ∷ 0 ∷ 0 ∷ 0 ∷ 0 ∷ []) ++ sql)

abbrev idle : Assembler
idle = record { file = codes "f"; cur = none; next_gtid = [] }

abbrev begin_ : Event
begin_ = query 10 (codes " begin")

abbrev open_ : List Event → Assembler
open_ rows = record idle {
  cur =
      some (record {
        events = rows;
        file = codes "f";
        start_pos = 10;
        end_pos = 0;
        xid = 0;
        gtid = [];
      });
}

abbrev row : ℕ → Event
row pos = event 30 pos []

abbrev xid : Event
xid = event 16 40 (to_le 8 5)

abbrev transaction : Transaction
transaction = record {
  events = row 20 ∷ row 30 ∷ [];
  file = codes "f";
  start_pos = 10;
  end_pos = 40;
  xid = 5;
  gtid = [];
}

begun : push idle begin_ ≡ ok (none, open_ [])
unfolding push parse_query on_query is_word trim_space trim_left upper_all
begun = refl

first : push (open_ []) (row 20) ≡ ok (none, open_ (row 20 ∷ []))
unfolding push on_rows
first = refl

second : push (open_ (row 20 ∷ [])) (row 30) ≡ ok (none, open_ (row 20 ∷ row 30 ∷ []))
unfolding push on_rows
second = refl

committed : push (open_ (row 20 ∷ row 30 ∷ [])) xid ≡ ok (some transaction, idle)
unfolding push parse_xid close
committed = refl

push_lem_example :
    ((row 20 ∷ row 30 ∷ []) ++ [] ≡ (row 20 ∷ row 30 ∷ []) ++ [])
    ⊎ (IsDropping xid
        × ((◌≡◌ {A = Option Transaction} (some transaction) none) × (rows_of idle.cur ≡ [])))
push_lem_example = push_lem (open_ (row 20 ∷ row 30 ∷ [])) xid committed

abbrev log : List Event
log = begin_ ∷ row 20 ∷ row 30 ∷ xid ∷ []

not_query : (e : Event) → e.header.type_ ≢ 2 → ¬ IsDropping e
not_query e h d = h d.is_query

log-AreBracketed : AreBracketed idle log
log-AreBracketed = next begin_ _ begun (inr refl) (
    next (row 20) _ first (inr refl) (
      next (row 30) _ second (inl (not_query (row 30) (omega arith)))
        (next xid [] committed (inl (not_query xid (omega arith))) (ended idle))))

pushed : push_each idle log ≡ ok (transaction ∷ [], idle)
unfolding push_each push parse_query on_query is_word trim_space trim_left upper_all on_rows
    parse_xid close
pushed = refl

push_each-rows_example :
    all_rows (transaction ∷ []) ++ rows_of idle.cur ≡ rows_of idle.cur ++ only_rows log
push_each-rows_example = push_each-rows log-AreBracketed pushed

abbrev bad : Event
bad = event 23 20 (to_le 8 0 ++ (254 ∷ to_le 8 (2 ^ 63) ++ []))

parse_rows_panic_example : parse_rows bad ≡ err panic
parse_rows_panic_example =
    parse_rows_panic bad (to_le 8 0) [] (2 ^ 63) refl refl refl (omega arith) (omega arith)

-- 5, 1-3 and 4, and the same transactions as one interval.
abbrev pieces : List Interval
pieces =
    record { start = 5; end = 5 }
    ∷ record { start = 1; end = 3 }
    ∷ record { start = 4; end = 4 }
    ∷ []

abbrev whole : List Interval
whole = record { start = 1; end = 5 } ∷ []

normalize_pieces : normalize_intervals pieces ≡ normalize_intervals whole
unfolding normalize_intervals sort_intervals insert_sorted less merge_loop extend
normalize_pieces = refl

normalize_intervals_iff_example :
    ((gno : ℕ) → covers gno pieces ≡ covers gno whole)
    ↔ (normalize_intervals pieces ≡ normalize_intervals whole)
normalize_intervals_iff_example =
    normalize_intervals_iff pieces whole (omega arith) (omega arith) (omega arith) (omega arith)
