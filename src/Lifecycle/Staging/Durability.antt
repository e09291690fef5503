-- ===== src/Lifecycle/Staging/Durability.antt =====
-- When a source position may be acknowledged.
use dts.Common.{
  ℕ, String, Bool, true, false, ◌+◌, ◌≡◌, ◌⊎◌, refl, sym, ◌∙◌, ap, subst, Option, none, some, ok,
  err, ltb, ◌&&◌, Option-cases, inl, inr, last?, if◌then◌else◌,
}
use dts.Domain.{CdcEvent, SpoolRecord}
use dts.Store.Defs.{Store}
use dts.Store.Spool.{create_cdc_spool, cdc_spool_stats, find_id, complete_record, max_sequence}
use dts.Store.Spool.Queue.{find_id-append, create_fresh, create_known}
use dts.Lifecycle.Service.{Fault, refused}
use dts.Lifecycle.Staging.{
  Settings, Events, Staged, new_record, cdc_spool_id, persist, check_limits, is_blank,
  stage_cdc_events,
}

-- The spool holds a record under the id of the transaction, with the sequence returned.
pub record IsDurable (settings : Settings) (task_id direction : String) (last : CdcEvent String)
    (sequence : ℕ) (t : Store (CdcEvent String)) : Type 0 where
  pub kept : SpoolRecord (CdcEvent String)
  pub found : find_id (cdc_spool_id settings task_id direction last) t.cdc_spool ≡ some kept
  pub numbered : kept.sequence ≡ sequence

complete-id :
    (json_bytes : Events → Option ℕ) (n : ℕ) (v : SpoolRecord (CdcEvent String))
    → (complete_record json_bytes n v).id ≡ v.id
unfolding complete_record
complete-id json_bytes n v = refl

complete-sequence :
    (json_bytes : Events → Option ℕ) (n : ℕ) (v : SpoolRecord (CdcEvent String))
    → (complete_record json_bytes n v).sequence ≡ n
unfolding complete_record
complete-sequence json_bytes n v = refl

-- What is created is found.
create-found :
    (json_bytes : Events → Option ℕ) (s : Store (CdcEvent String))
    (v : SpoolRecord (CdcEvent String))
    → (w : SpoolRecord (CdcEvent String)) × (find_id v.id
          (create_cdc_spool json_bytes s v).0.cdc_spool
        ≡ some w)
      × (w.sequence ≡ (create_cdc_spool json_bytes s v).1)
create-found json_bytes s v = elim (Option-cases (find_id v.id s.cdc_spool)) [
  | inr (old, f) ↦
      let same = create_known json_bytes s v old f in
      (old, ap (λ r. find_id v.id r.0.cdc_spool) same ∙ f, sym (ap (λ r. r.1) same))
  | inl f ↦
      let n = max_sequence v.task_id v.direction 0 s.cdc_spool + 1 in
      let same = create_fresh json_bytes s v f in
      (
        complete_record json_bytes n v,
        ap (λ r. find_id v.id r.0.cdc_spool) same
            ∙ find_id-append v.id s.cdc_spool (complete_record json_bytes n v) f
                (complete-id json_bytes n v),
        complete-sequence json_bytes n v ∙ sym (ap (λ r. r.1) same),
      )
]

-- What a result means: a success is durable, and a failure before the last fault changed nothing.
unfoldable Means :
    Settings → String → String → CdcEvent String → Store (CdcEvent String) → Staged → Type 0
Means settings task_id direction last s (ok r, t) =
    (r.position_type ≡ last.position_type)
    × (r.position_value ≡ last.position_value)
    × IsDurable settings task_id direction last r.spool_sequence t
Means settings task_id direction last s (err e, t) =
    (t ≡ s) ⊎ ((fault : String) × (settings.fault_after_persist ≡ some fault))

persist-cases :
    (settings : Settings) (now : ℕ) (task_id direction : String) (events : Events) (bytes : ℕ)
    (last : CdcEvent String) (s : Store (CdcEvent String)) (fault : Option String)
    → settings.fault_after_persist ≡ fault
    → let created =
        create_cdc_spool settings.json_bytes s
          (new_record settings now task_id direction events bytes last) in
      Means settings task_id direction last s (elim fault [
        | some e ↦ (err (refused e), created.0)
        | none ↦ (
          ok (record {
            last_event_id = last.id;
            position_type = last.position_type;
            position_value = last.position_value;
            staged = true;
            spool_sequence = created.1;
          }),
          created.0,
        )
      ])
unfolding Means
persist-cases settings now task_id direction events bytes last s (some e) f = inr (e, f)
persist-cases settings now task_id direction events bytes last s none f =
    let (w, found, numbered) =
      create-found settings.json_bytes s
        (new_record settings now task_id direction events bytes last) in
    (refl, refl, record { kept = w; found = found; numbered = numbered })

module _ (settings : Settings) (now : ℕ) (task_id direction : String) (events : Events)
    (last : CdcEvent String) (s : Store (CdcEvent String)) where
  unchanged : (e : Fault) → Means settings task_id direction last s (err e, s)
  unfolding Means
  unchanged e = inl refl

  if-Means :
      (b : Bool) (x y : Staged)
      → Means settings task_id direction last s x
      → Means settings task_id direction last s y
      → Means settings task_id direction last s (if b then x else y)
  if-Means true x y hx hy = hx
  if-Means false x y hx hy = hy

  before-Means :
      (fault : Option String) (x : Staged)
      → Means settings task_id direction last s x
      → Means settings task_id direction last s
          (elim fault [ some e ↦ (err (refused e), s) | none ↦ x ])
  before-Means (some e) x h = unchanged (refused e)
  before-Means none x h = h

  check_limits-Means :
      (bytes : ℕ)
      → Means settings task_id direction last s
          (check_limits settings now task_id direction events bytes last s)
  unfolding check_limits persist
  check_limits-Means bytes =
      if-Means (ltb 0 settings.max_transaction_bytes && ltb settings.max_transaction_bytes bytes) _
        _ (unchanged _)
        (if-Means
          (ltb 0 settings.max_pending_bytes
            && ltb settings.max_pending_bytes
                ((cdc_spool_stats s task_id direction).pending_bytes + bytes))
          _ _ (unchanged _)
          (before-Means settings.fault_before_persist _ (
            persist-cases settings now task_id direction events bytes last s
              settings.fault_after_persist refl)))

  -- The rest of `stageCDCEvents`, for the last event.
  abbrev rest_of : Option ℕ → Staged
  rest_of none = (err (refused "marshal CDC spool transaction"), s)
  rest_of (some bytes) = check_limits settings now task_id direction events bytes last s

  rest-Means : (o : Option ℕ) → Means settings task_id direction last s (rest_of o)
  rest-Means none = unchanged _
  rest-Means (some bytes) = check_limits-Means bytes

  stage-Means :
      last? events ≡ some last
      → Means settings task_id direction last s
          (stage_cdc_events settings now task_id direction events s)
  unfolding stage_cdc_events
  stage-Means f =
      let same : stage_cdc_events settings now task_id direction events s ≡ (
          if is_blank last.position_value
          then (err (refused "CDC spool requires a durable source position"), s)
          else rest_of (settings.json_bytes events)) =
        rw (f, stage_cdc_events) refl in
      subst (Means settings task_id direction last s) (sym same) (
        if-Means (is_blank last.position_value) _ _ (unchanged _)
          (rest-Means (settings.json_bytes events)))

stage-empty :
    (settings : Settings) (now : ℕ) (task_id direction : String) (events : Events)
    (s : Store (CdcEvent String))
    → last? events ≡ none
    → stage_cdc_events settings now task_id direction events s
      ≡ (err (refused "CDC spool transaction is empty"), s)
unfolding stage_cdc_events
stage-empty settings now task_id direction events s f = rw (f, stage_cdc_events) refl

-- If staging fails, and not by the fault that is injected after the write, the store is as it was.
pub stage_cdc_events_refused :
    (settings : Settings) (now : ℕ) (task_id direction : String) (events : Events)
    (s : Store (CdcEvent String)) {e : Fault} {t : Store (CdcEvent String)}
    → stage_cdc_events settings now task_id direction events s ≡ (err e, t)
    → settings.fault_after_persist ≡ none
    → t ≡ s
unfolding Means
stage_cdc_events_refused settings now task_id direction events s {e} {t} h no_fault =
    elim (Option-cases (last? events)) [
      | inl f ↦
          sym (ap (λ r. r.1) h)
          ∙ ap (λ r. r.1) (stage-empty settings now task_id direction events s f)
      | inr (last, f) ↦
          elim (subst (Means settings task_id direction last s) h
            (stage-Means settings now task_id direction events last s f)) [
              | inl same ↦ same
              | inr (fault, g) ↦ cc (sym no_fault ∙ g)
            ]
    ]
