-- ===== src/CdcRuntime/Defs.antt =====
-- runtime.go: `Transaction`, `Runner` and `Run`. The vendor's reader and the apply, gate and observe
-- functions are not this file's code: they are parameters that act on a state `S` of their own. The
-- calls that `Run` makes are kept in a log, newest last; `Close` is deferred, so it is the last call.
use dts.Common.{ℕ, zero, suc, List, [], ◌∷◌, ◌++◌, Option, none, some, Result, ok, err}

-- `Events` are of a type `E`, `Checkpoint` of a type `P`, `Label` of a type `L`.
pub record Transaction (E P L : Type 0) : Type 0 where
  pub events : List E
  pub checkpoint : P
  pub label : L

-- The `Reader` interface, for readers with a state `S` and errors `X`.
pub record Reader (S T X : Type 0) : Type 0 where
  pub next : S → Result X (Option T) × S
  pub acknowledge : T → S → Option X × S
  pub close : S → S

pub data Call (E T R X : Type 0) : Type 0 where
  gated : Option X → Call E T R X
  read : Result X (Option T) → Call E T R X
  applied : List E → Result X R → Call E T R X
  acknowledged : T → Option X → Call E T R X
  observed : T → R → Call E T R X
  closed : Call E T R X

pub data RunError (P X : Type 0) : Type 0 where
  missing_hooks : RunError P X
  failed : X → RunError P X
  empty_transaction : P → RunError P X
  not_acknowledged : P → X → RunError P X

-- The state after the run, the calls made, and the error, if the run returned one.
pub record Outcome (S C Y : Type 0) : Type 0 where
  pub state : S
  pub calls : List C
  pub error : Option Y

-- `Runner`: a nil hook is `none`.
pub record Runner (S E P L R X : Type 0) : Type 0 where
  pub reader : Option (Reader S (Transaction E P L) X)
  pub gate : Option (S → Option X × S)
  pub apply : Option (List E → S → Result X R × S)
  pub observe : Option (Transaction E P L → R → S → S)

abbrev pub Log : (E P L R X : Type 0) → Type 0
Log E P L R X = List (Call E (Transaction E P L) R X)

-- A run that has returned; `none` where the fuel ran out.
abbrev pub Return : (S E P L R X : Type 0) → Type 0
Return S E P L R X = Option (Outcome S (Call E (Transaction E P L) R X) (RunError P X))

module _ {S E P L R X : Type 0} where
  -- A return from the loop: the deferred `Close` runs.
  unfoldable pub finish :
      Reader S (Transaction E P L) X
      → S
      → Log E P L R X
      → Option (RunError P X)
      → Outcome S (Call E (Transaction E P L) R X) (RunError P X)
  finish reader s log e = record { state = reader.close s; calls = log ++ (closed ∷ []); error = e }

module _ {S E P L R X : Type 0} (reader : Reader S (Transaction E P L) X)
    (apply : List E → S → Result X R × S) (observe : Option (Transaction E P L → R → S → S))
    (again : S → Log E P L R X → Return S E P L R X) where
  -- `if r.Observe != nil`, then the next round, `again`.
  unfoldable pub on_observe :
      Option (Transaction E P L → R → S → S)
      → Transaction E P L
      → R
      → S
      → Log E P L R X
      → Return S E P L R X
  on_observe none tx r s log = again s log
  on_observe (some f) tx r s log = again (f tx r s) (log ++ (observed tx r ∷ []))

  -- After `Acknowledge`.
  unfoldable pub on_acknowledge :
      Transaction E P L → R → Option X × S → Log E P L R X → Return S E P L R X
  unfolding finish on_observe
  on_acknowledge tx r (some e, s) log = some (
      finish reader s (log ++ (acknowledged tx (some e) ∷ []))
        (some (not_acknowledged tx.checkpoint e)))
  on_acknowledge tx r (none, s) log = on_observe observe tx r s (log ++ (acknowledged tx none ∷ []))

  -- After `Apply`.
  unfoldable pub on_apply : Transaction E P L → Result X R × S → Log E P L R X → Return S E P L R X
  unfolding finish on_acknowledge
  on_apply tx (err e, s) log =
      some (finish reader s (log ++ (applied tx.events (err e) ∷ [])) (some (failed e)))
  on_apply tx (ok r, s) log =
      on_acknowledge tx r (reader.acknowledge tx s) (log ++ (applied tx.events (ok r) ∷ []))

  -- The test `len(tx.Events) == 0`, then `Apply`.
  unfoldable pub on_events : Transaction E P L → List E → S → Log E P L R X → Return S E P L R X
  unfolding finish on_apply
  on_events tx [] s log = some (finish reader s log (some (empty_transaction tx.checkpoint)))
  on_events tx (event ∷ more) s log = on_apply tx (apply tx.events s) log

  -- After `Next`.
  unfoldable pub on_read :
      Result X (Option (Transaction E P L)) × S → Log E P L R X → Return S E P L R X
  unfolding finish on_events
  on_read (err e, s) log = some (finish reader s (log ++ (read (err e) ∷ [])) (some (failed e)))
  on_read (ok none, s) log = some (finish reader s (log ++ (read (ok none) ∷ [])) none)
  on_read (ok (some tx), s) log = on_events tx tx.events s (log ++ (read (ok (some tx)) ∷ []))

module _ {S E P L R X : Type 0} where
  -- The `for` loop, with fuel for the rounds; `none` means that the fuel ran out.
  unfoldable pub loop :
      Reader S (Transaction E P L) X
      → (List E → S → Result X R × S)
      → Option (Transaction E P L → R → S → S)
      → ℕ
      → S
      → Log E P L R X
      → Return S E P L R X
  unfolding on_read
  loop reader apply observe zero s log = none
  loop reader apply observe (suc fuel) s log =
      on_read reader apply observe (loop reader apply observe fuel) (reader.next s) log

  -- After the gate.
  unfoldable pub on_gate :
      Reader S (Transaction E P L) X
      → (List E → S → Result X R × S)
      → Option (Transaction E P L → R → S → S)
      → ℕ
      → Option X × S
      → Return S E P L R X
  unfolding loop finish
  on_gate reader apply observe fuel (some e, s) =
      some (finish reader s (gated (some e) ∷ []) (some (failed e)))
  on_gate reader apply observe fuel (none, s) = loop reader apply observe fuel s (gated none ∷ [])

  -- `if r.Gate != nil`
  unfoldable pub run_gated :
      Option (S → Option X × S)
      → Reader S (Transaction E P L) X
      → (List E → S → Result X R × S)
      → Option (Transaction E P L → R → S → S)
      → ℕ
      → S
      → Return S E P L R X
  unfolding on_gate loop
  run_gated none reader apply observe fuel s = loop reader apply observe fuel s []
  run_gated (some gate) reader apply observe fuel s = on_gate reader apply observe fuel (gate s)

  -- `if r.Reader == nil || r.Apply == nil`
  unfoldable pub run_hooks :
      Option (Reader S (Transaction E P L) X)
      → Option (List E → S → Result X R × S)
      → Runner S E P L R X
      → ℕ
      → S
      → Return S E P L R X
  unfolding run_gated
  run_hooks none apply runner fuel s =
      some (record { state = s; calls = []; error = some missing_hooks })
  run_hooks (some reader) none runner fuel s =
      some (record { state = s; calls = []; error = some missing_hooks })
  run_hooks (some reader) (some apply) runner fuel s =
      run_gated runner.gate reader apply runner.observe fuel s

  -- `Runner.Run`
  unfoldable pub run : Runner S E P L R X → ℕ → S → Return S E P L R X
  unfolding run_hooks
  run runner fuel s = run_hooks runner.reader runner.apply runner fuel s
