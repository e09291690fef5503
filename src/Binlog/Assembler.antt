-- ===== src/Binlog/Assembler.antt =====
-- transaction.go: `Assembler`. An error leaves it as it was.
use dts.Common.{
  ℕ, Bool, ◌&&◌, ◌||◌, ◌==◌, leb, if◌then◌else◌, List, [], ◌∷◌, ◌++◌, Option, none, some, Result,
  ok, err,
}
use dts.Common.Bytes.{Bytes, codes}
use dts.Binlog.Events.{
  BinlogError, Event, Query, parse_rotate, parse_query, parse_xid, parse_gtid, is_word,
}

-- `Transaction`
pub record Transaction : Type 0 where
  pub events : List Event
  pub file : Bytes
  pub start_pos : ℕ
  pub end_pos : ℕ
  pub xid : ℕ
  pub gtid : Bytes

-- `Assembler`
pub record Assembler : Type 0 where
  pub file : Bytes
  pub cur : Option Transaction
  pub next_gtid : Bytes

-- What `Push` returns without an error, and the assembler after it.
abbrev pub Pushed : Type 0
Pushed = Option Transaction × Assembler

-- `isRows`
abbrev pub is_rows : ℕ → Bool
is_rows t = leb 23 t && leb t 25 || leb 30 t && leb t 32 || t == 39

-- A transaction that starts at an event.
abbrev pub start : Assembler → Event → Transaction
start a e = record {
  events = [];
  file = a.file;
  start_pos = e.header.log_pos;
  end_pos = 0;
  xid = 0;
  gtid = a.next_gtid;
}

-- COMMIT and XID: what both do with the open transaction.
unfoldable pub close : Assembler → Event → (Transaction → Transaction) → Pushed
close a e change = elim a.cur [
  | none ↦ (none, a)
  | some t ↦ (
    some (record (change t) { end_pos = e.header.log_pos }),
    record a { cur = none; next_gtid = [] },
  )
]

-- The last test of `Push`: a row event goes into the open transaction, or opens one.
unfoldable pub on_rows : Assembler → Event → Pushed
on_rows a e =
    if is_rows e.header.type_
    then (let t : Transaction = elim a.cur [ none ↦ start a e | some t ↦ t ] in
        (none, record a { cur = some (record t { events = t.events ++ (e ∷ []) }) }))
    else (none, a)

-- A query event; any other statement than these falls through to the row test, which it fails.
unfoldable pub on_query : Assembler → Event → Query → Pushed
unfolding is_word close on_rows
on_query a e q =
    if is_word (codes "BEGIN") q
    then (none, record a { cur = some (start a e) })
    else (if is_word (codes "ROLLBACK") q
        then (none, record a { cur = none; next_gtid = [] })
        else (if is_word (codes "COMMIT") q then close a e (λ t. t) else on_rows a e))

-- A parse result passed on.
abbrev pub with_ok : {A : Type 0} → Result BinlogError A → (A → Pushed) → Result BinlogError Pushed
with_ok (ok x) f = ok (f x)
with_ok (err e) f = err e

-- `Push` of an event that is not nil.
unfoldable pub push : Assembler → Event → Result BinlogError Pushed
unfolding parse_gtid parse_rotate parse_query parse_xid on_query on_rows close
push a e =
    let t = e.header.type_ in
    if t == 33 || t == 34
    then with_ok (parse_gtid e) (λ gtid. (none, record a { next_gtid = gtid }))
    else (if t == 4
        then with_ok (parse_rotate e) (λ file. (none, record a { file = file }))
        else (if t == 2
            then with_ok (parse_query e) (on_query a e)
            else (if t == 16
                then with_ok (parse_xid e) (λ xid. close a e (λ t. record t { xid = xid }))
                else ok (on_rows a e))))

-- `ConsumePendingGTID`
abbrev pub consume_pending_gtid : Assembler → Bytes × Assembler
consume_pending_gtid a = (a.next_gtid, record a { next_gtid = [] })

-- The events of a log, one after another; it ends at the first error.
unfoldable pub push_each :
    Assembler → List Event → Result BinlogError (List Transaction × Assembler)
unfolding push
push_each a [] = ok ([], a)
push_each a (e ∷ es) = elim (push a e) [
  | err x ↦ err x
  | ok (out, b) ↦ elim (push_each b es) [
    | err x ↦ err x
    | ok (txs, c) ↦ ok (elim out [ none ↦ txs | some t ↦ t ∷ txs ], c)
  ]
]
