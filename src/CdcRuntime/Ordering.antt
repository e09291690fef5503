-- ===== src/CdcRuntime/Ordering.antt =====
-- The order of the calls of a run.
use dts.Common.{ℕ, zero, suc, ◌≡◌, subst, List, [], ◌∷◌, ◌++◌, Option, none, some, Result, ok, err}
use dts.CdcRuntime.Defs.{
  Transaction, Reader, Call, RunError, Outcome, Runner, Log, Return, gated, read, applied,
  acknowledged, observed, closed, on_observe, on_acknowledge, on_apply, on_events, on_read, loop,
  on_gate, run_gated, run_hooks, run,
}

-- One call may follow another: an apply follows the read of the same events, an acknowledgement the
-- successful apply of the same transaction, an observation its acknowledgement, and a read the gate,
-- an acknowledgement or an observation. Anything may be closed.
pub data Follows {E P L R X : Type 0}
    : Call E (Transaction E P L) R X → Call E (Transaction E P L) R X → Type 0 where
  apply_read :
      (tx : Transaction E P L) (r : Result X R)
      → Follows (read (ok (some tx))) (applied tx.events r)
  acknowledge_applied :
      (tx : Transaction E P L) (r : R) (a : Option X)
      → Follows (applied tx.events (ok r)) (acknowledged tx a)
  observe_acknowledged :
      (tx : Transaction E P L) (r : R) → Follows (acknowledged tx none) (observed tx r)
  read_gated : (g : Result X (Option (Transaction E P L))) → Follows (gated none) (read g)
  read_acknowledged :
      (tx : Transaction E P L) (g : Result X (Option (Transaction E P L)))
      → Follows (acknowledged tx none) (read g)
  read_observed :
      (tx : Transaction E P L) (r : R) (g : Result X (Option (Transaction E P L)))
      → Follows (observed tx r) (read g)
  close_after : (c : Call E (Transaction E P L) R X) → Follows c closed

-- `IsChain log c`: the log starts with the gate or a read, each call may follow the one before it, and
-- `c` is the last.
pub data IsChain {E P L R X : Type 0}
    : Log E P L R X → Call E (Transaction E P L) R X → Type 0 where
  start_gate : (a : Option X) → IsChain (gated a ∷ []) (gated a)
  start_read : (g : Result X (Option (Transaction E P L))) → IsChain (read g ∷ []) (read g)
  then :
      {log : Log E P L R X} {c : Call E (Transaction E P L) R X}
      (d : Call E (Transaction E P L) R X)
      → IsChain log c
      → Follows c d
      → IsChain (log ++ (d ∷ [])) d

module _ {E P L R X : Type 0} where
  -- A log that the loop may go on from.
  pub data IsReady : Log E P L R X → Type 0 where
    fresh : IsReady []
    after :
        {log : Log E P L R X} {c : Call E (Transaction E P L) R X}
        → IsChain log c
        → ((g : Result X (Option (Transaction E P L))) → Follows c (read g))
        → IsReady log

module _ {E P L R X : Type 0} where
  close-IsChain :
      {log : Log E P L R X} {c : Call E (Transaction E P L) R X}
      → IsChain log c
      → IsChain (log ++ (closed ∷ [])) closed
  close-IsChain {c = c} h = then closed h (close_after c)

module _ {S E P L R X : Type 0} where
  -- If the run has returned, its calls are a chain that ends with `closed`.
  abbrev pub EndsClosed : Return S E P L R X → Type 0
  EndsClosed none = Unit
  EndsClosed (some o) = IsChain o.calls closed

module _ {S E P L R X : Type 0} (reader : Reader S (Transaction E P L) X)
    (apply : List E → S → Result X R × S) (observe : Option (Transaction E P L → R → S → S))
    (again : S → Log E P L R X → Return S E P L R X)
    (again-EndsClosed : (s : S) (log : Log E P L R X)
      → IsReady log
      → EndsClosed (again s log)) where
  on_observe-EndsClosed :
      (o : Option (Transaction E P L → R → S → S)) (tx : Transaction E P L) (r : R) (s : S)
      (log : Log E P L R X)
      → IsChain log (acknowledged tx none)
      → EndsClosed (on_observe reader apply observe again o tx r s log)
  unfolding on_observe
  on_observe-EndsClosed none tx r s log h =
      again-EndsClosed s log (after h (λ g. read_acknowledged tx g))
  on_observe-EndsClosed (some f) tx r s log h =
      again-EndsClosed (f tx r s) (log ++ (observed tx r ∷ []))
        (after (then (observed tx r) h (observe_acknowledged tx r)) (λ g. read_observed tx r g))

  on_acknowledge-EndsClosed :
      (tx : Transaction E P L) (r : R) (a : Option X × S) (log : Log E P L R X)
      → IsChain log (applied tx.events (ok r))
      → EndsClosed (on_acknowledge reader apply observe again tx r a log)
  unfolding on_acknowledge
  on_acknowledge-EndsClosed tx r (some e, s) log h =
      close-IsChain (then (acknowledged tx (some e)) h (acknowledge_applied tx r _))
  on_acknowledge-EndsClosed tx r (none, s) log h =
      on_observe-EndsClosed observe tx r s (log ++ (acknowledged tx none ∷ []))
        (then (acknowledged tx none) h (acknowledge_applied tx r none))

  on_apply-EndsClosed :
      (tx : Transaction E P L) (a : Result X R × S) (log : Log E P L R X)
      → IsChain log (read (ok (some tx)))
      → EndsClosed (on_apply reader apply observe again tx a log)
  unfolding on_apply
  on_apply-EndsClosed tx (err e, s) log h =
      close-IsChain (then (applied tx.events (err e)) h (apply_read tx (err e)))
  on_apply-EndsClosed tx (ok r, s) log h =
      on_acknowledge-EndsClosed tx r (reader.acknowledge tx s)
        (log ++ (applied tx.events (ok r) ∷ []))
        (then (applied tx.events (ok r)) h (apply_read tx (ok r)))

  on_events-EndsClosed :
      (tx : Transaction E P L) (events : List E) (s : S) (log : Log E P L R X)
      → IsChain log (read (ok (some tx)))
      → EndsClosed (on_events reader apply observe again tx events s log)
  unfolding on_events
  on_events-EndsClosed tx [] s log h = close-IsChain h
  on_events-EndsClosed tx (e ∷ es) s log h = on_apply-EndsClosed tx (apply tx.events s) log h

  read-IsChain :
      (log : Log E P L R X) (g : Result X (Option (Transaction E P L)))
      → IsReady log
      → IsChain (log ++ (read g ∷ [])) (read g)
  read-IsChain log g fresh = start_read g
  read-IsChain log g (after h next) = then (read g) h (next g)

  on_read-EndsClosed :
      (got : Result X (Option (Transaction E P L)) × S) (log : Log E P L R X)
      → IsReady log
      → EndsClosed (on_read reader apply observe again got log)
  unfolding on_read
  on_read-EndsClosed (err e, s) log h = close-IsChain (read-IsChain log (err e) h)
  on_read-EndsClosed (ok none, s) log h = close-IsChain (read-IsChain log (ok none) h)
  on_read-EndsClosed (ok (some tx), s) log h =
      on_events-EndsClosed tx tx.events s _ (read-IsChain log (ok (some tx)) h)

module _ {S E P L R X : Type 0} where
  loop-EndsClosed :
      (reader : Reader S (Transaction E P L) X) (apply : List E → S → Result X R × S)
      (observe : Option (Transaction E P L → R → S → S)) (fuel : ℕ) (s : S) (log : Log E P L R X)
      → IsReady log
      → EndsClosed (loop reader apply observe fuel s log)
  unfolding loop
  loop-EndsClosed reader apply observe zero s log h = tt
  loop-EndsClosed reader apply observe (suc fuel) s log h =
      on_read-EndsClosed reader apply observe (loop reader apply observe fuel)
        (loop-EndsClosed reader apply observe fuel) (reader.next s) log h

  on_gate-EndsClosed :
      (reader : Reader S (Transaction E P L) X) (apply : List E → S → Result X R × S)
      (observe : Option (Transaction E P L → R → S → S)) (fuel : ℕ) (a : Option X × S)
      → EndsClosed (on_gate reader apply observe fuel a)
  unfolding on_gate
  on_gate-EndsClosed reader apply observe fuel (some e, s) = close-IsChain (start_gate (some e))
  on_gate-EndsClosed reader apply observe fuel (none, s) =
      loop-EndsClosed reader apply observe fuel s _ (after (start_gate none) read_gated)

  -- A runner with both required hooks.
  pub record HasHooks (runner : Runner S E P L R X) : Type 0 where
    pub reader : Reader S (Transaction E P L) X
    pub apply : List E → S → Result X R × S
    pub has_reader : runner.reader ≡ some reader
    pub has_apply : runner.apply ≡ some apply

  run_gated-EndsClosed :
      (gate : Option (S → Option X × S)) (reader : Reader S (Transaction E P L) X)
      (apply : List E → S → Result X R × S) (observe : Option (Transaction E P L → R → S → S))
      (fuel : ℕ) (s : S)
      → EndsClosed (run_gated gate reader apply observe fuel s)
  unfolding run_gated
  run_gated-EndsClosed none reader apply observe fuel s =
      loop-EndsClosed reader apply observe fuel s [] fresh
  run_gated-EndsClosed (some gate) reader apply observe fuel s =
      on_gate-EndsClosed reader apply observe fuel (gate s)

  -- Of a runner with a reader and an apply hook, each run that returns has made its calls in order: it
  -- acknowledges a transaction only right after its events were applied without an error, applies
  -- events only right after it read them, never goes on after an error, and closes the reader last.
  pub run-IsChain :
      (runner : Runner S E P L R X) (fuel : ℕ) (s : S)
      {o : Outcome S (Call E (Transaction E P L) R X) (RunError P X)}
      → HasHooks runner
      → run runner fuel s ≡ some o
      → IsChain o.calls closed
  unfolding run run_hooks
  run-IsChain runner fuel s hooks h =
      let direct = rw (hooks.has_reader, hooks.has_apply, run_hooks) at h in
      subst EndsClosed direct
        (run_gated-EndsClosed runner.gate hooks.reader hooks.apply runner.observe fuel s)
