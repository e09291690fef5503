-- ===== src/Pipeline/Running/Conserving.antt =====
-- full.go: what holds in every state of `Run`: no batch is skipped, and no commit precedes its write.
use mathlib.Core.List.{append-nil, append_assoc}
use dts.Common.{
  ℕ, suc, String, Bool, true, false, ◌+◌, ◌≤◌, ◌<◌, ◌≡◌, refl, ◌∙◌, ap, List, [], ◌∷◌, ◌++◌, Option,
  none, some, Result, ok, err, length, length-append, arith, Bool-cases, inl, inr,
}
use dts.Pipeline.Batching.{Config, Control, Batch}
use dts.Pipeline.Running.{
  Stats, Item, batch, broken, Written, ReaderState, reading, sending, closed, WriterState,
  receiving, transforming, writing, committing, returned, SinkCall, wrote, committed, Running,
  start, on_read, on_sent, batch_of, on_received, on_transformed, on_written, add_written,
  on_committed, Step, begin_read, end_read, send, give_up, receive, end_of_channel, transform,
  write, commit, resume, interrupt, cancel, Reach, here, later,
}

-- What the writer, the channel and the reader hold, in the order in which it was read.
abbrev pub held_by_writer : WriterState → List Batch
held_by_writer (transforming b) = b ∷ []
held_by_writer (writing b out) = b ∷ []
held_by_writer (committing b out ms) = b ∷ []
held_by_writer (returned lost out) = lost
held_by_writer _ = []

abbrev pub batches : List Item → List Batch
batches [] = []
batches (item ∷ items) = batch_of item ++ batches items

abbrev pub held_by_reader : ReaderState → List Batch
held_by_reader (sending limit item) = batch_of item
held_by_reader (closed lost) = lost
held_by_reader _ = []

unfoldable pub in_flight : Running → List Batch
in_flight r = held_by_writer r.writer ++ (batches r.channel ++ held_by_reader r.reader)

-- The last call was the write of the batch.
abbrev pub LastWrote : Batch → List SinkCall → Type 0
LastWrote b [] = ⊥
LastWrote b (wrote c ∷ calls) = b ≡ c
LastWrote b (committed c ∷ calls) = ⊥

-- Each commit comes right after the write of the batch that it commits.
abbrev pub CommitsFollowWrites : List SinkCall → Type 0
CommitsFollowWrites [] = Unit
CommitsFollowWrites (wrote b ∷ calls) = CommitsFollowWrites calls
CommitsFollowWrites (committed b ∷ calls) = LastWrote b calls × CommitsFollowWrites calls

abbrev pub IsWritten : WriterState → List SinkCall → Type 0
IsWritten (committing b out ms) calls = LastWrote out calls
IsWritten _ calls = Unit

-- The rows of the batches that were written.
abbrev pub rows_written : List SinkCall → ℕ
rows_written [] = 0
rows_written (wrote b ∷ calls) = b.rows + rows_written calls
rows_written (committed b ∷ calls) = rows_written calls

abbrev pub count_commits : List SinkCall → ℕ
count_commits [] = 0
count_commits (wrote b ∷ calls) = count_commits calls
count_commits (committed b ∷ calls) = suc (count_commits calls)

-- The invariant.
pub record IsSafe (cfg : Config) (initial : Stats) (r : Running) : Type 0 where
  pub conserved : r.produced ≡ r.acknowledged ++ in_flight r
  pub bounded : length r.channel ≤ cfg.buffer_batches
  pub followed : CommitsFollowWrites r.calls
  pub is_written : IsWritten r.writer r.calls
  pub reported : r.stats.rows_read ≡ initial.rows_read + rows_written r.calls
  pub matched : length r.acknowledged ≡ count_commits r.calls

batches-append : (xs ys : List Item) → batches (xs ++ ys) ≡ batches xs ++ batches ys
batches-append [] ys = refl
batches-append (item ∷ items) ys =
    ap (λ rest. batch_of item ++ rest) (batches-append items ys) ∙ simp append_assoc

-- What is read goes to the end of what is in flight.
held-append :
    (done w c : List Batch) (b : Batch) (all : List Batch)
    → all ≡ done ++ (w ++ (c ++ []))
    → all ++ b ∷ [] ≡ done ++ (w ++ (c ++ b ∷ []))
held-append done w c b all e = rw e (simp (append_assoc, append-nil))

-- What is sent goes from the reader to the end of the channel.
held-sent :
    (done w : List Batch) (channel : List Item) (item : Item) (all : List Batch)
    → all ≡ done ++ (w ++ (batches channel ++ batch_of item))
    → all ≡ done ++ (w ++ (batches (channel ++ item ∷ []) ++ []))
held-sent done w channel item all e =
    e ∙ simp (batches-append channel (item ∷ []), append_assoc, append-nil)

-- What is committed goes from the head of what is in flight to the end of what is done.
held-committed :
    (done rest : List Batch) (b : Batch) (all : List Batch)
    → all ≡ done ++ (b ∷ rest)
    → all ≡ (done ++ b ∷ []) ++ rest
held-committed done rest b all e = e ∙ simp append_assoc

module _ (cfg : Config) (has_transform : Bool) (initial : Stats) where
  on_read-IsSafe :
      (r : Running) (limit : ℕ) (x : Result String (Option Batch))
      → r.reader ≡ reading limit
      → IsSafe cfg initial r
      → IsSafe cfg initial (on_read limit x r)
  unfolding on_read in_flight
  on_read-IsSafe r limit (err e) at safe = ground arith
  on_read-IsSafe r limit (ok none) at safe = ground arith
  on_read-IsSafe r limit (ok (some b)) at safe =
      let read : Batch = record b { requested_rows = limit } in
      ground (
        arith,
        held-append r.acknowledged (held_by_writer r.writer) (batches r.channel) read r.produced,
      )

  on_sent-IsSafe :
      (r : Running) (limit : ℕ) (item : Item)
      → r.reader ≡ sending limit item
      → length r.channel < cfg.buffer_batches
      → IsSafe cfg initial r
      → IsSafe cfg initial (on_sent limit item r)
  unfolding on_sent in_flight
  on_sent-IsSafe r limit (broken e) at room safe = ground (
    arith,
    held-sent r.acknowledged (held_by_writer r.writer) r.channel (broken e) r.produced,
    length-append r.channel (broken e ∷ []),
  )
  on_sent-IsSafe r limit (batch b) at room safe = ground (
    arith,
    held-sent r.acknowledged (held_by_writer r.writer) r.channel (batch b) r.produced,
    length-append r.channel (batch b ∷ []),
  )

  on_received-IsSafe :
      (r : Running) (item : Item) (rest : List Item)
      → r.writer ≡ receiving
      → r.channel ≡ item ∷ rest
      → IsSafe cfg initial r
      → IsSafe cfg initial (on_received has_transform item (record r { channel = rest }))
  unfolding on_received in_flight
  on_received-IsSafe r (broken e) rest at head safe = ground arith
  on_received-IsSafe r (batch b) rest at head safe = elim (Bool-cases has_transform) [
    | inl e ↦ rw e (ground arith)
    | inr e ↦ rw e (ground arith)
  ]

  on_transformed-IsSafe :
      (r : Running) (b : Batch) (x : Result String (Option Batch))
      → r.writer ≡ transforming b
      → IsSafe cfg initial r
      → IsSafe cfg initial (on_transformed b x r)
  unfolding on_transformed in_flight
  on_transformed-IsSafe r b (err e) at safe = ground arith
  on_transformed-IsSafe r b (ok none) at safe = ground arith
  on_transformed-IsSafe r b (ok (some out)) at safe = ground arith

  on_written-IsSafe :
      (r : Running) (b out : Batch) (x : Result String Written)
      → r.writer ≡ writing b out
      → IsSafe cfg initial r
      → IsSafe cfg initial (on_written b out x r)
  unfolding on_written add_written in_flight
  on_written-IsSafe r b out (err e) at safe = ground arith
  on_written-IsSafe r b out (ok w) at safe = ground arith

  on_committed-IsSafe :
      (r : Running) (b out : Batch) (ms : ℕ) (x : Result String (Control × Bool))
      → r.writer ≡ committing b out ms
      → IsSafe cfg initial r
      → IsSafe cfg initial (on_committed cfg b out ms x r)
  unfolding on_committed in_flight
  on_committed-IsSafe r b out ms (err e) at safe = ground arith
  on_committed-IsSafe r b out ms (ok (control, true)) at safe = ground (
    arith,
    held-committed r.acknowledged (batches r.channel ++ held_by_reader r.reader) b r.produced,
    length-append r.acknowledged (b ∷ []),
  )
  on_committed-IsSafe r b out ms (ok (control, false)) at safe = ground (
    arith,
    held-committed r.acknowledged (batches r.channel ++ held_by_reader r.reader) b r.produced,
    length-append r.acknowledged (b ∷ []),
  )

  pub Step-IsSafe :
      {r s : Running} → Step cfg has_transform r s → IsSafe cfg initial r → IsSafe cfg initial s
  unfolding in_flight
  Step-IsSafe (begin_read r at) safe = ground arith
  Step-IsSafe (end_read r limit x at) safe = on_read-IsSafe r limit x at safe
  Step-IsSafe (send r limit item at room) safe = on_sent-IsSafe r limit item at room safe
  Step-IsSafe (give_up r limit item at over) safe = ground arith
  Step-IsSafe (receive r item rest at head) safe = on_received-IsSafe r item rest at head safe
  Step-IsSafe (end_of_channel r lost at empty over) safe = ground arith
  Step-IsSafe (transform r b x at) safe = on_transformed-IsSafe r b x at safe
  Step-IsSafe (write r b out x at) safe = on_written-IsSafe r b out x at safe
  Step-IsSafe (commit r b out ms x at) safe = on_committed-IsSafe r b out ms x at safe
  Step-IsSafe (resume r at) safe = ground arith
  Step-IsSafe (interrupt r e at over) safe = ground arith
  Step-IsSafe (cancel r) safe = ground arith

  start-IsSafe : IsSafe cfg initial (start cfg initial)
  unfolding start in_flight
  start-IsSafe = record {
    conserved = refl;
    bounded = omega arith;
    followed = tt;
    is_written = tt;
    reported = omega arith;
    matched = refl;
  }

  -- In every state that `Run` reaches, whatever the hooks return and whoever cancels: the batches read
  -- are, in order, those committed and then those in flight, so that none is skipped or repeated; the
  -- channel holds no more than its size; each commit comes right after the write of its own batch, one for
  -- each batch committed; and the statistics count the rows of the batches written, on top of those at
  -- the start.
  pub Reach-IsSafe :
      {r : Running} → Reach cfg has_transform (start cfg initial) r → IsSafe cfg initial r
  Reach-IsSafe here = start-IsSafe
  Reach-IsSafe (later reach step) = Step-IsSafe step (Reach-IsSafe reach)
