-- ===== src/Lifecycle/Applying/Effects.antt =====
-- The two stores that `ApplyCDCEvents` writes to, its errors, and programs that a crash may cut short:
-- each write and each commit is one effect, and a program is run with the number of effects that it may
-- make before the process dies.
use dts.Common.{ℕ, zero, suc, String, ◌≡◌, List, Result, ok, err, refl}
use dts.Domain.{CdcEvent}
use dts.Store.Defs.{Store, StoreError}
use dts.Lifecycle.Service.{Fault, of_store}

abbrev pub Events : Type 0
Events = List (CdcEvent String)

-- The repository, and the target: the transactions that it committed, the latest first.
pub record World : Type 0 where
  pub store : Store (CdcEvent String)
  pub target : List Events

-- An error of `ApplyCDCEvents`: an ordinary one, `cdcCommitOutcomeUnknownError`, or
-- `cdcBlockedByCommitUncertainError`; and the death of the process.
pub data Failure : Type 0 where
  crashed : Failure
  fault : Fault → Failure
  outcome_unknown : Failure
  blocked : Failure

-- The result, the effects that are left, and the world.
abbrev pub Run : Type 0 → Type 0
Run A = ℕ → World → Result Failure A × ℕ × World

-- An error skips the rest.
abbrev pub continue : {A B : Type 0} → (A → Run B) → Result Failure A → Run B
continue f (ok a) n w = f a n w
continue f (err e) n w = (err e, n, w)

infixl 5 ◌>>=◌ ◌>>◌
abbrev pub ◌>>=◌ : {A B : Type 0} → Run A → (A → Run B) → Run B
◌>>=◌ m f n w = let (r, left, w') = m n w in continue f r left w'

abbrev pub ◌>>◌ : {A B : Type 0} → Run A → Run B → Run B
m >> k = m >>= λ _. k

abbrev pub return : {A : Type 0} → A → Run A
return a n w = (ok a, n, w)

abbrev pub throw : {A : Type 0} → Failure → Run A
throw e n w = (err e, n, w)

-- What only reads the store.
abbrev pub ask : {A : Type 0} → (Store (CdcEvent String) → Result Failure A) → Run A
ask f n w = (f w.store, n, w)

-- An effect, if one is left.
abbrev pub effect : {A : Type 0} → (World → Result Failure A × World) → Run A
effect f zero w = (err crashed, zero, w)
effect f (suc n) w = let (r, w') = f w in (r, n, w')

-- A write of the repository.
abbrev pub write :
    (Store (CdcEvent String) → Result StoreError (Store (CdcEvent String))) → Run (Unit {0})
write f = effect λ w. elim (f w.store) [
  | ok s ↦ (ok tt, record w { store = s })
  | err e ↦ (err (fault (of_store e)), w)
]

-- `_ = ...`: an error is dropped, but not a crash.
abbrev pub forgiven : Result Failure (Unit {0}) → Result Failure (Unit {0})
forgiven (err crashed) = err crashed
forgiven _ = ok tt

abbrev pub ignore : Run (Unit {0}) → Run (Unit {0})
ignore m n w = let (r, left, w') = m n w in (forgiven r, left, w')

abbrev pub lift : {A : Type 0} → Result StoreError A → Result Failure A
lift (ok a) = ok a
lift (err e) = err (fault (of_store e))

-- The world after a program.
abbrev pub after : {A : Type 0} → Run A → ℕ → World → World
after m n w = (m n w).2

-- The end of a program, in both cases of what came before.
pub continue-Ends :
    {A B : Type 0} (P : Result Failure B × ℕ × World → Type 0) (f : A → Run B)
    (r : Result Failure A) (n : ℕ) (w : World)
    → ((e : Failure) → r ≡ err e → P (err e, n, w))
    → ((a : A) → r ≡ ok a → P (f a n w))
    → P (continue f r n w)
continue-Ends P f (ok a) n w stop go = go a refl
continue-Ends P f (err e) n w stop go = stop e refl

-- What holds of the world after the first part, and after the second if the first succeeded, holds after
-- both.
pub after->>= :
    {A B : Type 0} (Holds : World → Type 0) (m : Run A) (f : A → Run B) (n : ℕ) (w : World)
    → Holds (after m n w)
    → ((a : A) → (m n w).0 ≡ ok a → Holds (after (f a) (m n w).1 (m n w).2))
    → Holds (after (m >>= f) n w)
after->>= Holds m f n w stop go =
    continue-Ends (λ out. Holds out.2) f (m n w).0 (m n w).1 (m n w).2 (λ e failed. stop) go
