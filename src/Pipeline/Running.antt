-- ===== src/Pipeline/Running.antt =====
-- full.go: `Run` as two threads, the goroutine that reads ahead and the loop that writes and commits,
-- with the channel between them. A step is what one thread does between two waits; what the hooks return,
-- when the parent's context is cancelled, and whether a pause is due, the environment decides.
pub mod Conserving
pub mod Ending
use dts.Common.{
  ℕ, String, Bool, true, false, ◌+◌, ◌≤◌, ◌<◌, ◌≡◌, ◌==◌, ◌||◌, ltb, if◌then◌else◌, List, [], ◌∷◌,
  ◌++◌, Option, none, some, Result, ok, err, length,
}
use dts.Pipeline.Batching.{Config, Control, Batch, clamp, next_batch_rows}

-- `Stats`
pub record Stats : Type 0 where
  pub rows_read : ℕ
  pub rows_written : ℕ
  pub bytes_read : ℕ
  pub bytes_written : ℕ
  pub last_read_ms : ℕ
  pub last_write_ms : ℕ
  pub last_batch_rows : ℕ

-- `readResult`
pub data Item : Type 0 where
  batch : Batch → Item
  broken : String → Item

-- What `Write` returns beside an error.
pub record Written : Type 0 where
  pub rows : ℕ
  pub bytes : ℕ
  pub ms : ℕ

-- The goroutine: before a read, in `Read` with a limit, at the send, or returned, with what it had read
-- and did not send.
pub data ReaderState : Type 0 where
  looping : ReaderState
  reading : ℕ → ReaderState
  sending : ℕ → Item → ReaderState
  closed : List Batch → ReaderState

-- What `Run` returns beside the statistics: at the end of the channel, on `StopAfterCommit`, or an error.
pub data Returned : Type 0 where
  drained stopped : Returned
  failed : String → Returned

-- The loop: at the receive, in a hook (with the batch as it was read, and as it is written), in a pause,
-- or returned, with the batch that it had taken and not committed.
pub data WriterState : Type 0 where
  receiving : WriterState
  transforming : Batch → WriterState
  writing : Batch → Batch → WriterState
  committing : Batch → Batch → ℕ → WriterState
  pausing : WriterState
  returned : List Batch → Returned → WriterState

-- A call of the sink that succeeded.
pub data SinkCall : Type 0 where
  wrote committed : Batch → SinkCall

-- The state of one `Run`, with what happened so far: the batches read and those committed, in order, the
-- calls of the sink, the latest first, and whether a read reached the end of the source.
pub record Running : Type 0 where
  pub reader : ReaderState
  pub channel : List Item
  pub writer : WriterState
  pub batch_rows : ℕ
  pub stats : Stats
  pub cancelled : Bool
  pub produced : List Batch
  pub acknowledged : List Batch
  pub calls : List SinkCall
  pub exhausted : Bool

-- `Run` before its first step.
unfoldable pub start : Config → Stats → Running
start cfg initial = record {
  reader = looping;
  channel = [];
  writer = receiving;
  batch_rows = cfg.initial_batch_rows;
  stats = initial;
  cancelled = false;
  produced = [];
  acknowledged = [];
  calls = [];
  exhausted = false;
}

abbrev pub has_returned : WriterState → Bool
has_returned (returned lost out) = true
has_returned _ = false

-- `<-ctx.Done()`: the parent was cancelled, or `Run` returned and its deferred `cancel` ran.
abbrev pub is_context_done : Running → Bool
is_context_done r = r.cancelled || has_returned r.writer

-- After `Read`.
unfoldable pub on_read : ℕ → Result String (Option Batch) → Running → Running
on_read limit (err e) r = record r { reader = sending limit (broken e) }
on_read limit (ok none) r = record r { reader = closed []; exhausted = true }
on_read limit (ok (some b)) r =
    if b.rows == 0
    then record r { reader = closed []; exhausted = true }
    else (let read : Batch = record b { requested_rows = limit } in
        record r { reader = sending limit (batch read); produced = r.produced ++ read ∷ [] })

-- After the send: an error or a short batch was the last.
unfoldable pub on_sent : ℕ → Item → Running → Running
on_sent limit (broken e) r = record r { reader = closed []; channel = r.channel ++ broken e ∷ [] }
on_sent limit (batch b) r = record r {
  reader = if ltb b.rows limit then closed [] else looping;
  channel = r.channel ++ batch b ∷ [];
  exhausted = if ltb b.rows limit then true else r.exhausted;
}

-- The batches of an item.
abbrev pub batch_of : Item → List Batch
batch_of (batch b) = b ∷ []
batch_of (broken e) = []

-- `r.Transform != nil` is the first argument.
unfoldable pub on_received : Bool → Item → Running → Running
on_received has_transform (broken e) r = record r { writer = returned [] (failed e) }
on_received has_transform (batch b) r = record r {
  writer = if has_transform then transforming b else writing b b;
}

unfoldable pub on_transformed : Batch → Result String (Option Batch) → Running → Running
on_transformed b (err e) r = record r { writer = returned (b ∷ []) (failed e) }
on_transformed b (ok none) r = record r {
  writer = returned (b ∷ []) (failed "transform returned nil batch");
}
on_transformed b (ok (some out)) r = record r { writer = writing b out }

unfoldable pub add_written : Batch → Written → Stats → Stats
add_written out w s = record {
  rows_read = s.rows_read + out.rows;
  rows_written = s.rows_written + w.rows;
  bytes_read = s.bytes_read + out.bytes;
  bytes_written = s.bytes_written + w.bytes;
  last_read_ms = out.read_ms;
  last_write_ms = w.ms;
  last_batch_rows = out.rows;
}

unfoldable pub on_written : Batch → Batch → Result String Written → Running → Running
unfolding add_written
on_written b out (err e) r = record r { writer = returned (b ∷ []) (failed e) }
on_written b out (ok w) r = record r {
  writer = committing b out w.ms;
  stats = add_written out w r.stats;
  calls = wrote out ∷ r.calls;
}

-- After `Commit`, which also says whether to stop.
unfoldable pub on_committed :
    Config → Batch → Batch → ℕ → Result String (Control × Bool) → Running → Running
on_committed cfg b out ms (err e) r = record r { writer = returned (b ∷ []) (failed e) }
on_committed cfg b out ms (ok (control, stop)) r = record r {
  writer = if stop then returned [] stopped else pausing;
  batch_rows = if stop then r.batch_rows else next_batch_rows cfg control out ms r.batch_rows;
  acknowledged = r.acknowledged ++ b ∷ [];
  calls = committed out ∷ r.calls;
}

-- `cfg` is the normal configuration.
module _ (cfg : Config) (has_transform : Bool) where
  pub data Step : Running → Running → Type 0 where
    begin_read :
        (r : Running)
        → r.reader ≡ looping
        → Step r (record r {
          reader = reading (clamp r.batch_rows cfg.min_batch_rows cfg.max_batch_rows);
        })
    end_read :
        (r : Running) (limit : ℕ) (x : Result String (Option Batch))
        → r.reader ≡ reading limit
        → Step r (on_read limit x r)
    send :
        (r : Running) (limit : ℕ) (item : Item)
        → r.reader ≡ sending limit item
        → length r.channel < cfg.buffer_batches
        → Step r (on_sent limit item r)
    give_up :
        (r : Running) (limit : ℕ) (item : Item)
        → r.reader ≡ sending limit item
        → is_context_done r ≡ true
        → Step r (record r { reader = closed (batch_of item) })
    receive :
        (r : Running) (item : Item) (rest : List Item)
        → r.writer ≡ receiving
        → r.channel ≡ item ∷ rest
        → Step r (on_received has_transform item (record r { channel = rest }))
    end_of_channel :
        (r : Running) (lost : List Batch)
        → r.writer ≡ receiving
        → r.channel ≡ []
        → r.reader ≡ closed lost
        → Step r (record r { writer = returned [] drained })
    transform :
        (r : Running) (b : Batch) (x : Result String (Option Batch))
        → r.writer ≡ transforming b
        → Step r (on_transformed b x r)
    write :
        (r : Running) (b out : Batch) (x : Result String Written)
        → r.writer ≡ writing b out
        → Step r (on_written b out x r)
    commit :
        (r : Running) (b out : Batch) (ms : ℕ) (x : Result String (Control × Bool))
        → r.writer ≡ committing b out ms
        → Step r (on_committed cfg b out ms x r)
    resume : (r : Running) → r.writer ≡ pausing → Step r (record r { writer = receiving })
    interrupt :
        (r : Running) (e : String)
        → r.writer ≡ pausing
        → r.cancelled ≡ true
        → Step r (record r { writer = returned [] (failed e) })
    cancel : (r : Running) → Step r (record r { cancelled = true })

  -- Any number of steps.
  pub data Reach (r : Running) : Running → Type 0 where
    here : Reach r r
    later : {s t : Running} → Reach r s → Step s t → Reach r t
