-- ===== src/Binlog/Streams.antt =====
-- What the assembler makes of the rows of a whole log.
use dts.Common.{
  ◌≡◌, ◌⊎◌, refl, sym, ◌∙◌, ap, if◌then◌else◌, List, [], ◌∷◌, ◌++◌, Option, none, some, ok,
  Result-cases, Bool-cases, inl, inr, arith,
}
use dts.Binlog.Events.{Event}
use dts.Binlog.Assembler.{Transaction, Assembler, is_rows, push, push_each}
use dts.Binlog.Conserving.{rows_of, Conserves, append-nil, IsDropping, push_lem}

-- The row events of a log, and those of the transactions returned.
abbrev pub only_rows : List Event → List Event
only_rows [] = []
only_rows (e ∷ es) = if is_rows e.header.type_ then e ∷ only_rows es else only_rows es

abbrev pub all_rows : List Transaction → List Event
all_rows [] = []
all_rows (t ∷ ts) = t.events ++ all_rows ts

-- No BEGIN or ROLLBACK statement comes while rows are open.
pub data AreBracketed : Assembler → List Event → Type 0 where
  ended : (a : Assembler) → AreBracketed a []
  next :
      {a b : Assembler} {out : Option Transaction} (e : Event) (es : List Event)
      → push a e ≡ ok (out, b)
      → (¬ IsDropping e) ⊎ (rows_of a.cur ≡ [])
      → AreBracketed b es
      → AreBracketed a (e ∷ es)

step-Conserves :
    (a : Assembler) (e : Event) {out : Option Transaction} {b : Assembler}
    → push a e ≡ ok (out, b)
    → (¬ IsDropping e) ⊎ (rows_of a.cur ≡ [])
    → Conserves a e (out, b)
step-Conserves a e {out} {b} h k = elim (push_lem a e h) [
  | inl c ↦ c
  | inr (d, (gone, left)) ↦ elim k [
    | inl not_dropping ↦ absurd (not_dropping d)
    | inr nothing ↦ ground (arith, gone, left, nothing, d.is_query)
  ]
]

append_assoc : (xs ys zs : List Event) → (xs ++ ys) ++ zs ≡ xs ++ (ys ++ zs)
append_assoc [] ys zs = refl
append_assoc (x ∷ xs) ys zs = ap (λ t. x ∷ t) (append_assoc xs ys zs)

all_rows-out :
    (out : Option Transaction) (txs : List Transaction)
    → all_rows (elim out [ none ↦ txs | some t ↦ t ∷ txs ]) ≡ rows_of out ++ all_rows txs
all_rows-out none txs = refl
all_rows-out (some t) txs = refl

only_rows-cons :
    (e : Event) (es : List Event)
    → only_rows (e ∷ es) ≡ (if is_rows e.header.type_ then e ∷ [] else []) ++ only_rows es
only_rows-cons e es = elim (Bool-cases (is_rows e.header.type_)) [
  | inl k ↦ rw k refl
  | inr k ↦ rw k refl
]

-- No row of a log is lost, repeated or moved: if no BEGIN or ROLLBACK statement comes while rows are
-- open, the rows of the transactions returned, one after another, and then the rows still open, are the
-- rows that were open and then the log's.
pub push_each-rows :
    {a b : Assembler} {es : List Event} {txs : List Transaction}
    → AreBracketed a es
    → push_each a es ≡ ok (txs, b)
    → all_rows txs ++ rows_of b.cur ≡ rows_of a.cur ++ only_rows es
unfolding push_each
push_each-rows {a} {b} {txs = txs} (ended _) h =
    let same : [] ≡ txs = ground (arith, h) in
    let last : a ≡ b = ground (arith, h) in ground (arith, h, append-nil (rows_of a.cur))
push_each-rows {a} {b} {txs = txs} (next {b = c} {out = out} e es f k later) h =
    elim (Result-cases (push_each c es)) [
      | inr (x, g) ↦ cc (rw g at (rw (push_each, f) at h))
      | inl ((rest, last), g) ↦
          let made : elim out [ none ↦ rest | some t ↦ t ∷ rest ] ≡ txs =
            ground (arith, rw g at (rw (push_each, f) at h)) in
          let end : last ≡ b = ground (arith, rw g at (rw (push_each, f) at h)) in
          let ih : all_rows rest ++ rows_of last.cur ≡ rows_of c.cur ++ only_rows es =
            push_each-rows later g in
          let step = step-Conserves a e f k in
          let new = if is_rows e.header.type_ then e ∷ [] else [] in
          ap (λ z. all_rows txs ++ rows_of z.cur) (sym end)
          ∙ ap (λ ts. all_rows ts ++ rows_of last.cur) (sym made)
          ∙ ap (λ es. es ++ rows_of last.cur) (all_rows-out out rest)
          ∙ append_assoc (rows_of out) (all_rows rest) (rows_of last.cur)
          ∙ ap (λ es. rows_of out ++ es) ih
          ∙ sym (append_assoc (rows_of out) (rows_of c.cur) (only_rows es))
          ∙ ap (λ fs. fs ++ only_rows es) step
          ∙ append_assoc (rows_of a.cur) _ (only_rows es)
          ∙ ap (λ fs. rows_of a.cur ++ fs) (sym (only_rows-cons e es))
    ]
