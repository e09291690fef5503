-- ===== src/CdcRuntime/Ending.antt =====
-- A run ends when the reader does.
use dts.Common.{
  ℕ, zero, suc, ◌≤◌, ◌<◌, ◌≡◌, ◌≢◌, refl, List, [], ◌∷◌, Option, none, some, Result, ok, err, arith,
}
use dts.CdcRuntime.Defs.{
  Transaction, Reader, Runner, Log, Return, on_observe, on_acknowledge, on_apply, on_events,
  on_read, loop, on_gate, run_gated, run_hooks, run,
}

module _ {S E P L R X : Type 0} where
  -- A count of what is left to read: a read of a transaction lowers it, and no other hook raises it.
  pub record IsFinite (runner : Runner S E P L R X) (left : S → ℕ) : Type 0 where
    pub read_lowers :
        (reader : Reader S (Transaction E P L) X)
        → runner.reader ≡ some reader
        → (s t : S) (tx : Transaction E P L) → reader.next s ≡ (ok (some tx), t)
        → left t < left s
    pub acknowledge_keeps :
        (reader : Reader S (Transaction E P L) X)
        → runner.reader ≡ some reader
        → (tx : Transaction E P L) (s : S) → left (reader.acknowledge tx s).1 ≤ left s
    pub apply_keeps :
        (apply : List E → S → Result X R × S)
        → runner.apply ≡ some apply
        → (es : List E) (s : S) → left (apply es s).1 ≤ left s
    pub observe_keeps :
        (f : Transaction E P L → R → S → S)
        → runner.observe ≡ some f
        → (tx : Transaction E P L) (r : R) (s : S) → left (f tx r s) ≤ left s
    pub gate_keeps : (g : S → Option X × S) → runner.gate ≡ some g → (s : S) → left (g s).1 ≤ left s

module _ {S E P L R X : Type 0} (reader : Reader S (Transaction E P L) X)
    (apply : List E → S → Result X R × S) (observe : Option (Transaction E P L → R → S → S))
    (again : S → Log E P L R X → Return S E P L R X) (left : S → ℕ) (fuel : ℕ)
    (again_returns : (s : S) (log : Log E P L R X) → left s < fuel → again s log ≢ none)
    (acknowledge_keeps : (tx : Transaction E P L) (s : S)
      → left (reader.acknowledge tx s).1 ≤ left s)
    (apply_keeps : (es : List E) (s : S) → left (apply es s).1 ≤ left s)
    (observe_keeps : (f : Transaction E P L → R → S → S)
      → observe ≡ some f
      → (tx : Transaction E P L) (r : R) (s : S) → left (f tx r s) ≤ left s) where
  on_observe_returns :
      (o : Option (Transaction E P L → R → S → S)) (tx : Transaction E P L) (r : R) (s : S)
      (log : Log E P L R X)
      → observe ≡ o
      → left s < fuel
      → on_observe reader apply observe again o tx r s log ≢ none
  unfolding on_observe
  on_observe_returns none tx r s log e h = again_returns s log h
  on_observe_returns (some f) tx r s log e h =
      again_returns (f tx r s) _ (omega (arith, observe_keeps f e tx r s))

  on_acknowledge_returns :
      (tx : Transaction E P L) (r : R) (a : Option X × S) (log : Log E P L R X)
      → left a.1 < fuel
      → on_acknowledge reader apply observe again tx r a log ≢ none
  unfolding on_acknowledge
  on_acknowledge_returns tx r (some e, s) log h = λ p. cc
  on_acknowledge_returns tx r (none, s) log h = on_observe_returns observe tx r s _ refl h

  on_apply_returns :
      (tx : Transaction E P L) (a : Result X R × S) (log : Log E P L R X)
      → left a.1 < fuel
      → on_apply reader apply observe again tx a log ≢ none
  unfolding on_apply
  on_apply_returns tx (err e, s) log h = λ p. cc
  on_apply_returns tx (ok r, s) log h =
      on_acknowledge_returns tx r (reader.acknowledge tx s) _
        (omega (arith, acknowledge_keeps tx s))

  on_events_returns :
      (tx : Transaction E P L) (es : List E) (s : S) (log : Log E P L R X)
      → left s < fuel
      → on_events reader apply observe again tx es s log ≢ none
  unfolding on_events
  on_events_returns tx [] s log h = λ p. cc
  on_events_returns tx (e ∷ es) s log h =
      on_apply_returns tx (apply tx.events s) log (omega (arith, apply_keeps tx.events s))

  on_read_returns :
      (got : Result X (Option (Transaction E P L)) × S) (log : Log E P L R X)
      → ((tx : Transaction E P L) (t : S) → got ≡ (ok (some tx), t) → left t < fuel)
      → on_read reader apply observe again got log ≢ none
  unfolding on_read
  on_read_returns (err e, s) log h = λ p. cc
  on_read_returns (ok none, s) log h = λ p. cc
  on_read_returns (ok (some tx), s) log h = on_events_returns tx tx.events s _ (h tx s refl)

module _ {S E P L R X : Type 0} (runner : Runner S E P L R X) (left : S → ℕ) where
  loop_returns :
      (reader : Reader S (Transaction E P L) X) (apply : List E → S → Result X R × S)
      → IsFinite runner left
      → runner.reader ≡ some reader
      → runner.apply ≡ some apply
      → (fuel : ℕ) (s : S) (log : Log E P L R X) → left s < fuel
      → loop reader apply runner.observe fuel s log ≢ none
  unfolding loop
  loop_returns reader apply fin hr ha zero s log h = absurd (omega arith)
  loop_returns reader apply fin hr ha (suc fuel) s log h =
      on_read_returns reader apply runner.observe (loop reader apply runner.observe fuel) left fuel
        (loop_returns reader apply fin hr ha fuel) (fin.acknowledge_keeps reader hr)
        (fin.apply_keeps apply ha) fin.observe_keeps (reader.next s) log
        (λ tx t e. omega (arith, fin.read_lowers reader hr s t tx e))

  on_gate_returns :
      (reader : Reader S (Transaction E P L) X) (apply : List E → S → Result X R × S)
      → IsFinite runner left
      → runner.reader ≡ some reader
      → runner.apply ≡ some apply
      → (fuel : ℕ) (a : Option X × S) → left a.1 < fuel
      → on_gate reader apply runner.observe fuel a ≢ none
  unfolding on_gate
  on_gate_returns reader apply fin hr ha fuel (some e, s) h = λ p. cc
  on_gate_returns reader apply fin hr ha fuel (none, s) h =
      loop_returns reader apply fin hr ha fuel s _ h

  run_gated_returns :
      (gate : Option (S → Option X × S)) (reader : Reader S (Transaction E P L) X)
      (apply : List E → S → Result X R × S)
      → IsFinite runner left
      → runner.reader ≡ some reader
      → runner.apply ≡ some apply
      → runner.gate ≡ gate
      → (fuel : ℕ) (s : S) → left s < fuel
      → run_gated gate reader apply runner.observe fuel s ≢ none
  unfolding run_gated
  run_gated_returns none reader apply fin hr ha hg fuel s h =
      loop_returns reader apply fin hr ha fuel s [] h
  run_gated_returns (some gate) reader apply fin hr ha hg fuel s h =
      on_gate_returns reader apply fin hr ha fuel (gate s) (omega (arith, fin.gate_keeps gate hg s))

  run_hooks_returns :
      (reader : Option (Reader S (Transaction E P L) X))
      (apply : Option (List E → S → Result X R × S))
      → IsFinite runner left
      → runner.reader ≡ reader
      → runner.apply ≡ apply
      → (fuel : ℕ) (s : S) → left s < fuel
      → run_hooks reader apply runner fuel s ≢ none
  unfolding run_hooks
  run_hooks_returns none apply fin hr ha fuel s h = λ p. cc
  run_hooks_returns (some reader) none fin hr ha fuel s h = λ p. cc
  run_hooks_returns (some reader) (some apply) fin hr ha fuel s h =
      run_gated_returns runner.gate reader apply fin hr ha refl fuel s h

  -- A run returns, within as many rounds as there are transactions left and one more, if a read of a
  -- transaction lowers the count of those left and no other hook raises it.
  pub run_returns :
      IsFinite runner left → (fuel : ℕ) (s : S) → left s < fuel → run runner fuel s ≢ none
  unfolding run
  run_returns fin fuel s h = run_hooks_returns runner.reader runner.apply fin refl refl fuel s h
