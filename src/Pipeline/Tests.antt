-- ===== src/Pipeline/Tests.antt =====
-- The theorems on the full copy at a concrete configuration and a run of one batch.
use dts.Common.{true, false, ◌≤◌, ◌≡◌, refl, [], ◌∷◌, ◌++◌, some, ok, arith}
use dts.Pipeline.Batching.{
  Config, Control, Batch, normalize_config, next_batch_rows, IsNormal, next_batch_rows_lem,
}
use dts.Pipeline.Running.{
  Stats, Item, returned, drained, Running, start, on_read, on_sent, on_received, on_written,
  on_committed, Reach, here, later, begin_read, end_read, send, receive, write, commit, resume,
  end_of_channel, receiving, reading,
}
use dts.Pipeline.Running.Conserving.{IsSafe, Reach-IsSafe}
use dts.Pipeline.Running.Ending.{drained_complete, drained_incomplete}

abbrev config : Config
config = record {
  initial_batch_rows = 0;
  min_batch_rows = 9000;
  max_batch_rows = 0;
  buffer_batches = 99;
  adaptive = true;
}

abbrev control : Control
control = record { level = "OK"; max_batch_rows = 0; target_batch_rows = 0 }

abbrev batch : Batch
batch = record { rows = 5000; bytes = 9; requested_rows = 5000; cursor = "a"; read_ms = 10 }

next_batch_rows_lem_example :
    let cfg = normalize_config config in
    IsNormal cfg
    × (cfg.min_batch_rows ≤ next_batch_rows cfg control batch 20 5000)
    × (next_batch_rows cfg control batch 20 5000 ≤ cfg.max_batch_rows)
next_batch_rows_lem_example = next_batch_rows_lem config control batch 20 5000

abbrev cfg : Config
cfg = record {
  initial_batch_rows = 8;
  min_batch_rows = 4;
  max_batch_rows = 16;
  buffer_batches = 2;
  adaptive = true;
}

abbrev stats : Stats
stats = record {
  rows_read = 7;
  rows_written = 7;
  bytes_read = 70;
  bytes_written = 70;
  last_read_ms = 0;
  last_write_ms = 0;
  last_batch_rows = 0;
}

-- Three rows, read with a limit of eight: the last batch.
abbrev short : Batch
short = record { rows = 3; bytes = 30; requested_rows = 8; cursor = "c"; read_ms = 5 }

abbrev at_start : Running
unfolding start
at_start = start cfg stats

abbrev at_read : Running
at_read = record at_start { reader = reading 8 }

abbrev at_send : Running
unfolding on_read
at_send = on_read 8 (ok (some short)) at_read

abbrev at_closed : Running
unfolding on_sent
at_closed = on_sent 8 (Item.batch short) at_send

abbrev at_write : Running
unfolding on_received
at_write = on_received false (Item.batch short) (record at_closed { channel = [] })

abbrev at_commit : Running
unfolding on_written
at_commit = on_written short short (ok (record { rows = 3; bytes = 30; ms = 9 })) at_write

abbrev at_pause : Running
unfolding on_committed next_batch_rows
at_pause = on_committed cfg short short 9 (ok (control, false)) at_commit

abbrev at_end : Running
at_end = record at_pause { writer = returned [] drained }

reach_send : Reach cfg false (start cfg stats) at_send
unfolding start on_read
reach_send =
    later (later here (begin_read at_start refl)) (end_read at_read 8 (ok (some short)) refl)

reach_end : Reach cfg false (start cfg stats) at_end
unfolding start on_read on_sent on_received on_written on_committed next_batch_rows
reach_end =
    let closed = later reach_send (send at_send 8 (Item.batch short) refl (omega arith)) in
    let taken = later closed (receive at_closed (Item.batch short) [] refl refl) in
    let put =
      later taken
        (write at_write short short (ok (record { rows = 3; bytes = 30; ms = 9 })) refl) in
    let kept = later put (commit at_commit short short 9 (ok (control, false)) refl) in
    let again = later kept (resume at_pause refl) in
    later again (end_of_channel (record at_pause { writer = receiving }) [] refl refl refl)

Reach-IsSafe_example : IsSafe cfg stats at_end
Reach-IsSafe_example = Reach-IsSafe cfg false stats reach_end

drained_complete_example : (at_end.exhausted ≡ true) × (at_end.acknowledged ≡ at_end.produced)
unfolding at_pause at_commit at_write at_closed at_send at_start
drained_complete_example = drained_complete cfg false stats at_end [] reach_end refl refl

drained_incomplete_example :
    (s : Running) × Reach cfg false (start cfg stats) s
    × (s.writer ≡ returned [] drained)
    × (s.produced ≡ s.acknowledged ++ short ∷ [])
unfolding at_send at_start
drained_incomplete_example =
    drained_incomplete cfg false stats at_send 8 short reach_send refl refl refl
