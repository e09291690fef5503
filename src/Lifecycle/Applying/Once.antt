-- ===== src/Lifecycle/Applying/Once.antt =====
-- service.go: a transaction that is delivered again and again reaches the target once.
use dts.Common.{String, true, ◌≡◌, ◌⊎◌, List, ◌∷◌}
use dts.Domain.{CdcEvent, CdcPosition}
use dts.Lifecycle.Applying.Effects.{Events, World}
use dts.Lifecycle.Applying.Fence.{Settings}
use dts.Lifecycle.Applying.Events.{is_duplicate}
use dts.Lifecycle.Applying.Kept.{Kept, Uncertain}

module _ (settings : Settings) (id direction : String) (events : Events) (last : CdcEvent String)
    (base : List Events) (ps : List CdcPosition) where
  -- The transaction is not on the target, and either nothing was stored of it or it only moved the
  -- position; or it is on the target once, and either its fence or its checkpoint stands.
  data Once (w : World) : Type 0 where
    before :
        w.target ≡ base
        → (w.store.cdc_positions ≡ ps) ⊎ (is_duplicate id direction last w.store ≡ true)
        → Once w
    held : w.target ≡ events ∷ base → Uncertain settings id direction last w → Once w
    settled : w.target ≡ events ∷ base → is_duplicate id direction last w.store ≡ true → Once w

  -- What a transaction leaves that was delivered any number of times.
  abbrev pub IsOnce : World → Type 0
  IsOnce w =
      (w.target ≡ base)
      ⊎ ((w.target ≡ events ∷ base)
          × (Uncertain settings id direction last w
              ⊎ (is_duplicate id direction last w.store ≡ true)))
