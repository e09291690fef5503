-- ===== src/Binlog/Conserving.antt =====
-- What the assembler does with row events.
use dts.Common.{
  true, false, ◌≡◌, ◌⊎◌, refl, ap, subst, ◌||◌, ◌==◌, if◌then◌else◌, List, [], ◌∷◌, ◌++◌, Option,
  none, some, Result, ok, err, Bool-cases, Option-cases, inl, inr, arith,
}
use dts.Common.Bytes.{codes}
use dts.Binlog.Events.{
  BinlogError, Event, Query, parse_rotate, parse_query, parse_xid, parse_gtid, is_word,
}
use dts.Binlog.Assembler.{
  Transaction, Assembler, Pushed, is_rows, close, on_rows, on_query, with_ok, push,
}

-- The row events that an open or returned transaction holds.
abbrev pub rows_of : Option Transaction → List Event
rows_of none = []
rows_of (some t) = t.events

-- The step keeps all rows: those returned and those still open are those that were open and the new.
abbrev pub Conserves : Assembler → Event → Pushed → Type 0
Conserves a e (out, b) =
    rows_of out ++ rows_of b.cur ≡ rows_of a.cur ++ (if is_rows e.header.type_ then e ∷ [] else [])

-- The step drops what was open, at BEGIN and ROLLBACK.
abbrev Drops : Assembler → Pushed → Type 0
Drops a (out, b) = (out ≡ none) × (rows_of b.cur ≡ [])

pub append-nil : (es : List Event) → es ++ [] ≡ es
append-nil [] = refl
append-nil (e ∷ es) = ap (λ t. e ∷ t) (append-nil es)

close-Conserves :
    (a : Assembler) (e : Event) (change : Transaction → Transaction)
    → ((t : Transaction) → (change t).events ≡ t.events)
    → is_rows e.header.type_ ≡ false
    → Conserves a e (close a e change)
unfolding close
close-Conserves a e change h k = elim (Option-cases a.cur) [
  | inl f ↦ ground (arith, f, k)
  | inr (t, f) ↦ ground (arith, f, k, h t)
]

on_rows-Conserves : (a : Assembler) (e : Event) → Conserves a e (on_rows a e)
unfolding on_rows
on_rows-Conserves a e = elim (Bool-cases (is_rows e.header.type_)) [
  | inr k ↦ ground (arith, k, append-nil (rows_of a.cur))
  | inl k ↦ elim (Option-cases a.cur) [
    | inl f ↦ ground (arith, f, k)
    | inr (t, f) ↦ ground (arith, f, k)
  ]
]

-- A query event with one of the words that drop what is open.
pub record IsDropping (e : Event) : Type 0 where
  pub is_query : e.header.type_ ≡ 2
  pub query : Query
  pub parsed : parse_query e ≡ ok query
  pub word : (is_word (codes "BEGIN") query || is_word (codes "ROLLBACK") query) ≡ true

-- What a step does, as a sum of the two.
abbrev Does : Assembler → Event → Pushed → Type 0
Does a e step = Conserves a e step ⊎ (IsDropping e × Drops a step)

keeps-Conserves :
    (a : Assembler) (e : Event) (b : Assembler)
    → b.cur ≡ a.cur
    → is_rows e.header.type_ ≡ false
    → Conserves a e (none, b)
keeps-Conserves a e b h k = ground (arith, h, k, append-nil (rows_of a.cur))

on_query-Does :
    (a : Assembler) (e : Event) (q : Query)
    → e.header.type_ ≡ 2
    → parse_query e ≡ ok q
    → Does a e (on_query a e q)
unfolding on_query
on_query-Does a e q t f =
    let k : is_rows e.header.type_ ≡ false = ground (arith, t) in
    elim (Bool-cases (is_word (codes "BEGIN") q)) [
      | inl b ↦ inr (
        record { is_query = t; query = q; parsed = f; word = rw b refl },
        rw (b, on_query) (refl, refl),
      )
      | inr b ↦ elim (Bool-cases (is_word (codes "ROLLBACK") q)) [
        | inl r ↦ inr (
          record { is_query = t; query = q; parsed = f; word = rw b r },
          rw (b, on_query) (rw r (refl, refl)),
        )
        | inr r ↦ elim (Bool-cases (is_word (codes "COMMIT") q)) [
          | inl c ↦
              inl (rw (b, on_query) (rw r (rw c (close-Conserves a e (λ t. t) (λ t. refl) k))))
          | inr c ↦ inl (rw (b, on_query) (rw r (rw c (on_rows-Conserves a e))))
        ]
      ]
    ]

with_ok-inverse :
    {A : Type 0} (r : Result BinlogError A) (f : A → Pushed) (step : Pushed)
    → with_ok r f ≡ ok step
    → (x : A) × (r ≡ ok x) × (f x ≡ step)
with_ok-inverse (ok x) f step h = (x, refl, ground (arith, h))
with_ok-inverse (err e) f step h = cc h

-- Of every event that the assembler accepts: the rows that it returns and those that it keeps open are
-- those that were open, in order, and then the event itself if it is a row event; unless the event is
-- a BEGIN or ROLLBACK statement, which returns nothing and leaves no row open.
pub push_lem :
    (a : Assembler) (e : Event) {out : Option Transaction} {b : Assembler}
    → push a e ≡ ok (out, b)
    → (rows_of out ++ rows_of b.cur
        ≡ rows_of a.cur ++ (if is_rows e.header.type_ then e ∷ [] else []))
      ⊎ (IsDropping e × ((out ≡ none) × (rows_of b.cur ≡ [])))
unfolding push
push_lem a e {out} {b} h = elim (Bool-cases (e.header.type_ == 33 || e.header.type_ == 34)) [
  | inl t ↦
      let (gtid, f, same) =
        with_ok-inverse (parse_gtid e) (λ gtid. (none, record a { next_gtid = gtid })) (out, b)
          (rw (push, t) at h) in
      inl (
        subst (Conserves a e) same
          (keeps-Conserves a e (record a { next_gtid = gtid }) refl (ground (arith, t))))
  | inr t ↦ elim (Bool-cases (e.header.type_ == 4)) [
    | inl u ↦
        let (file, f, same) =
          with_ok-inverse (parse_rotate e) (λ file. (none, record a { file = file })) (out, b)
            (rw u at (rw (push, t) at h)) in
        inl (
          subst (Conserves a e) same
            (keeps-Conserves a e (record a { file = file }) refl (ground (arith, u))))
    | inr u ↦ elim (Bool-cases (e.header.type_ == 2)) [
      | inl v ↦
          let (q, f, same) =
            with_ok-inverse (parse_query e) (on_query a e) (out, b)
              (rw v at (rw u at (rw (push, t) at h))) in
          subst (Does a e) same (on_query-Does a e q (ground (arith, v)) f)
      | inr v ↦ elim (Bool-cases (e.header.type_ == 16)) [
        | inl w ↦
            let (xid, f, same) =
              with_ok-inverse (parse_xid e) (λ xid. close a e (λ t. record t { xid = xid }))
                (out, b) (rw w at (rw v at (rw u at (rw (push, t) at h)))) in
            inl (
              subst (Conserves a e) same
                (close-Conserves a e (λ t. record t { xid = xid }) (λ t. refl) (ground (arith, w))))
        | inr w ↦
            let same : on_rows a e ≡ (out, b) =
              ground (arith, rw w at (rw v at (rw u at (rw (push, t) at h)))) in
            inl (subst (Conserves a e) same (on_rows-Conserves a e))
      ]
    ]
  ]
]
