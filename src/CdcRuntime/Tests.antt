-- ===== src/CdcRuntime/Tests.antt =====
-- Runs over a reader that hands out a queue, and the theorems at them.
use dts.Common.{
  ℕ, ◌≤◌, ◌<◌, ◌≡◌, ◌≢◌, refl, List, [], ◌∷◌, ◌++◌, Option, none, some, Result, ok, err, length,
  arith, subst,
}
use mathlib.Core.Option.{some-injective}
use dts.CdcRuntime.Defs.{
  Transaction, Reader, Call, RunError, Outcome, Runner, Log, read, applied, acknowledged, closed,
  failed, run,
}
use dts.CdcRuntime.Ordering.{IsChain, run-IsChain}
use dts.CdcRuntime.Ending.{IsFinite, run_returns}

abbrev Txn : Type 0
Txn = Transaction ℕ ℕ ℕ

-- The queue left to read, and the events applied so far.
record Source : Type 0 where
  queue : List Txn
  sink : List ℕ

abbrev pop : List Txn → List ℕ → Result ℕ (Option Txn) × Source
pop [] sink = (ok none, record { queue = []; sink = sink })
pop (t ∷ ts) sink = (ok (some t), record { queue = ts; sink = sink })

abbrev queue_reader : Reader Source Txn ℕ
queue_reader = record {
  next = λ s. pop s.queue s.sink;
  acknowledge = λ _ s. (none, s);
  close = λ s. s;
}

abbrev store : List ℕ → Source → Result ℕ ℕ × Source
store es s = (ok (length es), record { queue = s.queue; sink = s.sink ++ es })

abbrev runner : Runner Source ℕ ℕ ℕ ℕ ℕ
runner = record { reader = some queue_reader; gate = none; apply = some store; observe = none }

abbrev tx : ℕ → Txn
tx n = record { events = n ∷ []; checkpoint = n; label = 0 }

abbrev start : Source
start = record { queue = tx 7 ∷ []; sink = [] }

abbrev calls : Log ℕ ℕ ℕ ℕ ℕ
calls =
    read (ok (some (tx 7)))
    ∷ applied (7 ∷ []) (ok 1)
    ∷ acknowledged (tx 7) none
    ∷ read (ok none)
    ∷ closed
    ∷ []

abbrev done : Outcome Source (Call ℕ Txn ℕ ℕ) (RunError ℕ ℕ)
done = record { state = record { queue = []; sink = 7 ∷ [] }; calls = calls; error = none }

ran : run runner 2 start ≡ some done
unfolding run
ran = refl

-- A failed apply is the last call before `Close`: the transaction is not acknowledged.
ran_into_error :
    run (record runner { apply = some (λ _ s. (err 5, s)) }) 2 start
    ≡ some (record {
      state = record { queue = []; sink = [] };
      calls = read (ok (some (tx 7))) ∷ applied (7 ∷ []) (err 5) ∷ closed ∷ [];
      error = some (failed 5);
    })
unfolding run
ran_into_error = refl

run-IsChain_example : IsChain calls closed
run-IsChain_example =
    run-IsChain runner 2 start
      (record { reader = queue_reader; apply = store; has_reader = refl; has_apply = refl }) ran

pop_lowers :
    (q : List Txn) (sink : List ℕ) (t : Source) (x : Txn)
    → pop q sink ≡ (ok (some x), t)
    → length t.queue < length q
pop_lowers [] sink t x e = cc
pop_lowers (y ∷ q) sink t x e = ground arith

abbrev left : Source → ℕ
left s = length s.queue

runner-IsFinite : IsFinite runner left
runner-IsFinite = record {
  read_lowers = λ r e s t x h.
      subst (λ (q : Reader Source Txn ℕ). q.next s ≡ (ok (some x), t) → left t < left s)
        (some-injective _ _ e) (pop_lowers s.queue s.sink t x) h;
  acknowledge_keeps = λ r e x s.
      subst (λ (q : Reader Source Txn ℕ). left (q.acknowledge x s).1 ≤ left s)
        (some-injective _ _ e) (omega arith);
  apply_keeps = λ f e es s.
      subst (λ (g : List ℕ → Source → Result ℕ ℕ × Source). left (g es s).1 ≤ left s)
        (some-injective _ _ e) (omega arith);
  observe_keeps = λ f e. cc;
  gate_keeps = λ g e. cc;
}

run_returns_example : run runner 2 start ≢ none
run_returns_example = run_returns runner left runner-IsFinite 2 start (omega arith)
