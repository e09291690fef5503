-- ===== src/Pipeline/Running/Ending.antt =====
-- full.go: what it means that `Run` returns at the end of the channel.
use mathlib.Core.List.{append-nil}
use dts.Common.{
  ℕ, String, Bool, true, false, ◌≡◌, refl, ◌||◌, List, [], ◌∷◌, ◌++◌, Option, none, some, Result,
  ok, err, arith, Bool-cases, inl, inr, subst,
}
use dts.Pipeline.Batching.{Config, Control, Batch}
use dts.Pipeline.Running.{
  Stats, Item, batch, broken, Written, ReaderState, reading, sending, closed, drained, WriterState,
  receiving, transforming, writing, committing, returned, Running, start, has_returned, on_read,
  on_sent, on_received, on_transformed, on_written, on_committed, Step, begin_read, end_read, send,
  give_up, receive, end_of_channel, transform, write, commit, resume, interrupt, cancel, Reach,
  here, later,
}
use dts.Pipeline.Running.Conserving.{in_flight, Reach-IsSafe}

has_broken : List Item → Bool
has_broken [] = false
has_broken (batch b ∷ items) = has_broken items
has_broken (broken e ∷ items) = true

has_broken-append : (xs ys : List Item) → has_broken (xs ++ ys) ≡ (has_broken xs || has_broken ys)
unfolding has_broken
has_broken-append [] ys = refl
has_broken-append (batch b ∷ xs) ys = has_broken-append xs ys
has_broken-append (broken e ∷ xs) ys = refl

-- A goroutine that returned before the loop did has sent all that it read, and it reached the end of the
-- source or has sent an error.
abbrev ReaderEnds : ReaderState → Bool → Bool → List Item → Type 0
ReaderEnds (closed lost) false exhausted channel =
    (lost ≡ []) × ((exhausted || has_broken channel) ≡ true)
ReaderEnds _ over exhausted channel = Unit

abbrev WriterEnds : WriterState → Running → Type 0
WriterEnds (returned lost drained) r =
    (lost ≡ []) × (r.channel ≡ []) × (r.reader ≡ closed []) × (r.exhausted ≡ true)
WriterEnds _ r = Unit

record IsOpen (r : Running) : Type 0 where
  reader_ends : ReaderEnds r.reader (has_returned r.writer) r.exhausted r.channel
  writer_ends : WriterEnds r.writer r

module _ (cfg : Config) (has_transform : Bool) where
  on_read-IsOpen :
      (r : Running) (limit : ℕ) (x : Result String (Option Batch))
      → r.reader ≡ reading limit
      → IsOpen r
      → IsOpen (on_read limit x r)
  unfolding on_read has_broken
  on_read-IsOpen r limit (err e) at open_ = ground arith
  on_read-IsOpen r limit (ok none) at open_ = ground arith
  on_read-IsOpen r limit (ok (some b)) at open_ = ground arith

  on_sent-IsOpen :
      (r : Running) (limit : ℕ) (item : Item)
      → r.reader ≡ sending limit item
      → IsOpen r
      → IsOpen (on_sent limit item r)
  unfolding on_sent has_broken
  on_sent-IsOpen r limit (broken e) at open_ =
      ground (arith, has_broken-append r.channel (broken e ∷ []))
  on_sent-IsOpen r limit (batch b) at open_ =
      ground (arith, has_broken-append r.channel (batch b ∷ []))

  on_received-IsOpen :
      (r : Running) (item : Item) (rest : List Item)
      → r.writer ≡ receiving
      → r.channel ≡ item ∷ rest
      → IsOpen r
      → IsOpen (on_received has_transform item (record r { channel = rest }))
  unfolding on_received has_broken
  on_received-IsOpen r (broken e) rest at head open_ = ground arith
  on_received-IsOpen r (batch b) rest at head open_ = elim (Bool-cases has_transform) [
    | inl e ↦ rw e (ground arith)
    | inr e ↦ rw e (ground arith)
  ]

  on_transformed-IsOpen :
      (r : Running) (b : Batch) (x : Result String (Option Batch))
      → r.writer ≡ transforming b
      → IsOpen r
      → IsOpen (on_transformed b x r)
  unfolding on_transformed
  on_transformed-IsOpen r b (err e) at open_ = ground arith
  on_transformed-IsOpen r b (ok none) at open_ = ground arith
  on_transformed-IsOpen r b (ok (some out)) at open_ = ground arith

  on_written-IsOpen :
      (r : Running) (b out : Batch) (x : Result String Written)
      → r.writer ≡ writing b out
      → IsOpen r
      → IsOpen (on_written b out x r)
  unfolding on_written
  on_written-IsOpen r b out (err e) at open_ = ground arith
  on_written-IsOpen r b out (ok w) at open_ = ground arith

  on_committed-IsOpen :
      (r : Running) (b out : Batch) (ms : ℕ) (x : Result String (Control × Bool))
      → r.writer ≡ committing b out ms
      → IsOpen r
      → IsOpen (on_committed cfg b out ms x r)
  unfolding on_committed
  on_committed-IsOpen r b out ms (err e) at open_ = ground arith
  on_committed-IsOpen r b out ms (ok (control, true)) at open_ = ground arith
  on_committed-IsOpen r b out ms (ok (control, false)) at open_ = ground arith

  -- No step takes a cancellation back.
  Step-cancelled :
      {r s : Running} → Step cfg has_transform r s → s.cancelled ≡ false → r.cancelled ≡ false
  unfolding on_read on_sent on_received on_transformed on_written on_committed
  Step-cancelled (begin_read r at) h = h
  Step-cancelled (end_read r limit (err e) at) h = h
  Step-cancelled (end_read r limit (ok none) at) h = h
  Step-cancelled (end_read r limit (ok (some b)) at) h = ground arith
  Step-cancelled (send r limit (batch b) at room) h = h
  Step-cancelled (send r limit (broken e) at room) h = h
  Step-cancelled (give_up r limit item at over) h = h
  Step-cancelled (receive r (batch b) rest at head) h = h
  Step-cancelled (receive r (broken e) rest at head) h = h
  Step-cancelled (end_of_channel r lost at empty over) h = h
  Step-cancelled (transform r b (err e) at) h = h
  Step-cancelled (transform r b (ok none) at) h = h
  Step-cancelled (transform r b (ok (some out)) at) h = h
  Step-cancelled (write r b out (err e) at) h = h
  Step-cancelled (write r b out (ok w) at) h = h
  Step-cancelled (commit r b out ms (err e) at) h = h
  Step-cancelled (commit r b out ms (ok (control, stop)) at) h = h
  Step-cancelled (resume r at) h = h
  Step-cancelled (interrupt r e at over) h = h
  Step-cancelled (cancel r) h = cc

  Step-IsOpen :
      {r s : Running} → Step cfg has_transform r s → r.cancelled ≡ false → IsOpen r → IsOpen s
  unfolding has_broken
  Step-IsOpen (begin_read r at) quiet open_ = ground arith
  Step-IsOpen (end_read r limit x at) quiet open_ = on_read-IsOpen r limit x at open_
  Step-IsOpen (send r limit item at room) quiet open_ = on_sent-IsOpen r limit item at open_
  Step-IsOpen (give_up r limit item at over) quiet open_ = ground arith
  Step-IsOpen (receive r item rest at head) quiet open_ =
      on_received-IsOpen r item rest at head open_
  Step-IsOpen (end_of_channel r lost at empty over) quiet open_ = ground arith
  Step-IsOpen (transform r b x at) quiet open_ = on_transformed-IsOpen r b x at open_
  Step-IsOpen (write r b out x at) quiet open_ = on_written-IsOpen r b out x at open_
  Step-IsOpen (commit r b out ms x at) quiet open_ = on_committed-IsOpen r b out ms x at open_
  Step-IsOpen (resume r at) quiet open_ = ground arith
  Step-IsOpen (interrupt r e at over) quiet open_ = ground arith
  Step-IsOpen (cancel r) quiet open_ = ground arith

  Reach-IsOpen :
      (initial : Stats) {r : Running}
      → Reach cfg has_transform (start cfg initial) r
      → r.cancelled ≡ false
      → IsOpen r
  unfolding start
  Reach-IsOpen initial here quiet = record { reader_ends = tt; writer_ends = tt }
  Reach-IsOpen initial (later reach step) quiet =
      let before = Step-cancelled step quiet in
      Step-IsOpen step before (Reach-IsOpen initial reach before)

  -- If `Run` returns at the end of the channel and its context was not cancelled, the copy is complete: a
  -- read reached the end of the source, and all batches read are committed, in order.
  pub drained_complete :
      (initial : Stats) (r : Running) (lost : List Batch)
      → Reach cfg has_transform (start cfg initial) r
      → r.writer ≡ returned lost drained
      → r.cancelled ≡ false
      → (r.exhausted ≡ true) × (r.acknowledged ≡ r.produced)
  unfolding in_flight
  drained_complete initial r lost reach end quiet =
      let safe = Reach-IsSafe cfg has_transform initial reach in
      let open_ = Reach-IsOpen initial reach quiet in
      let ends : WriterEnds (returned lost drained) r =
        subst (λ w. WriterEnds w r) end open_.writer_ends in
      (ends.3, ground (arith, ends, safe.conserved, append-nil r.acknowledged))

  -- A cancelled `Run` can return the same way without having copied what it read: while the loop waits at
  -- an empty channel and the goroutine is about to send a batch, a cancellation makes the goroutine drop
  -- it, and `Run` returns no error. So the result alone does not tell a complete copy.
  pub drained_incomplete :
      (initial : Stats) (r : Running) (limit : ℕ) (b : Batch)
      → Reach cfg has_transform (start cfg initial) r
      → r.writer ≡ receiving
      → r.channel ≡ []
      → r.reader ≡ sending limit (batch b)
      → (s : Running) × Reach cfg has_transform (start cfg initial) s
        × (s.writer ≡ returned [] drained)
        × (s.produced ≡ s.acknowledged ++ b ∷ [])
  unfolding in_flight
  drained_incomplete initial r limit b reach at empty about =
      let safe = Reach-IsSafe cfg has_transform initial reach in
      let r1 = record r { cancelled = true } in
      let r2 = record r1 { reader = closed (b ∷ []) } in
      let r3 = record r2 { writer = returned [] drained } in
      (
        r3,
        later (later (later reach (cancel r)) (give_up r1 limit (batch b) about (ground arith)))
            (end_of_channel r2 (b ∷ []) at empty refl),
        refl,
        ground (arith, safe.conserved),
      )
