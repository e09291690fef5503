-- ===== src/PgOutput/Stamping.antt =====
-- The positions of the events of the transactions that a stream releases.
use dts.Common.{
  ℕ, ◌≡◌, refl, subst, List, [], ◌∷◌, map, Option, none, some, Result, ok, err, Result-cases, inl,
  inr, All, arith,
}
use dts.Common.Bytes.{Bytes}
use dts.Domain.{CdcEvent}
use dts.PgOutput.Wire.{PgError}
use dts.PgOutput.Text.{format_lsn, unix_milli}
use dts.PgOutput.Decoder.{Transaction, Decoder, stamp, push}
use dts.PgOutput.Releasing.{IsStep, idle, began, learned, added, released, push-IsStep}

-- The messages of a stream, one after another; it ends at the first error.
unfoldable pub push_all : Decoder → List Bytes → Result PgError (List Transaction × Decoder)
unfolding push
push_all d [] = ok ([], d)
push_all d (m ∷ ms) = elim (push d m) [
  | err e ↦ err e
  | ok (out, d') ↦ elim (push_all d' ms) [
    | err e ↦ err e
    | ok (txs, after) ↦ ok (elim out [ none ↦ txs | some tx ↦ tx ∷ txs ], after)
  ]
]

-- All events of the transaction carry the position of its COMMIT.
abbrev pub IsStamped : Bytes → Transaction → Type 0
IsStamped position_type t =
    All (λ e. (e.position_type ≡ position_type) × (e.position_value ≡ format_lsn t.end_lsn))
      t.events

All-stamp :
    (position_type position : Bytes) (time : ℕ) (es : List (CdcEvent Bytes))
    → All
        (λ e. (e.position_type ≡ position_type) × (e.position_value ≡ position))
        (map (stamp position_type position time) es)
unfolding stamp
All-stamp position_type position time [] = tt
All-stamp position_type position time (e ∷ es) =
    ((refl, refl), All-stamp position_type position time es)

-- What a step returns is stamped.
abbrev ReturnsStamped : Bytes → Option Transaction → Type 0
ReturnsStamped position_type none = Unit
ReturnsStamped position_type (some t) = IsStamped position_type t

step-ReturnsStamped :
    {d after : Decoder} {out : Option Transaction}
    → IsStep d out after
    → ReturnsStamped d.position_type out
step-ReturnsStamped idle = tt
step-ReturnsStamped (began xid time) = tt
step-ReturnsStamped (learned r) = tt
step-ReturnsStamped (added t e h) = tt
step-ReturnsStamped {d} (released t commit end time h) =
    All-stamp d.position_type (format_lsn end) (unix_milli time) t.events

step-position_type :
    {d after : Decoder} {out : Option Transaction}
    → IsStep d out after
    → after.position_type ≡ d.position_type
step-position_type idle = refl
step-position_type (began xid time) = refl
step-position_type (learned r) = refl
step-position_type (added t e h) = refl
step-position_type (released t commit end time h) = refl

All-IsStamped :
    (position_type : Bytes) (out : Option Transaction) (txs : List Transaction)
    → ReturnsStamped position_type out
    → All (IsStamped position_type) txs
    → All (IsStamped position_type) (elim out [ none ↦ txs | some tx ↦ tx ∷ txs ])
All-IsStamped position_type none txs h k = k
All-IsStamped position_type (some t) txs h k = (h, k)

-- Of every stream of messages that the decoder accepts, each transaction that it returns has all its
-- events stamped with the position of that transaction's own COMMIT, of the decoder's type.
pub push_all-IsStamped :
    (d : Decoder) (ms : List Bytes) {txs : List Transaction} {after : Decoder}
    → push_all d ms ≡ ok (txs, after)
    → All (IsStamped d.position_type) txs
unfolding push_all
push_all-IsStamped d [] {txs} h =
    let same : [] ≡ txs = ground (arith, h) in subst (All (IsStamped d.position_type)) same tt
push_all-IsStamped d (m ∷ ms) {txs} h = elim (Result-cases (push d m)) [
  | inr (e, f) ↦ cc (rw (push_all, f) at h)
  | inl ((out, d'), f) ↦ elim (Result-cases (push_all d' ms)) [
    | inr (e, g) ↦ cc (rw g at (rw (push_all, f) at h))
    | inl ((rest, last), g) ↦
        let s = push-IsStep d m f in
        let later =
          subst (λ p. All (IsStamped p) rest) (step-position_type s) (push_all-IsStamped d' ms g) in
        let same : elim out [ none ↦ rest | some tx ↦ tx ∷ rest ] ≡ txs =
          ground (arith, rw g at (rw (push_all, f) at h)) in
        subst (All (IsStamped d.position_type)) same
          (All-IsStamped d.position_type out rest (step-ReturnsStamped s) later)
  ]
]
