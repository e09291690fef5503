-- ===== src/Store/Spool.antt =====
-- memory.go: the durable CDC spool, a list of staged source transactions for each task and direction.
pub mod Sequence
pub mod Queue
pub mod Draining
use dts.Common.{
  ℕ, zero, suc, String, Bool, true, false, ◌+◌, ◌-◌, ◌≡◌, List, [], ◌∷◌, ◌++◌, Option, none, some,
  Result, ok, err, ltb, leb, ◌==◌, not, ◌||◌, ◌&&◌, ◌=s=◌, if◌then◌else◌, length, take,
}
use dts.Domain.{SpoolRecord, SpoolStatus, SpoolStats}
use dts.Store.Defs.{Store, StoreError, not_found}

abbrev pub is_pending : SpoolStatus → Bool
is_pending SpoolStatus.pending = true
is_pending SpoolStatus.applied = false

abbrev pub no_stats : SpoolStats
no_stats = record {
  pending_transactions = 0;
  pending_events = 0;
  pending_bytes = 0;
  first_position = "";
  last_position = "";
}

module _ {E : Type 0} where
  -- `v.TaskID == taskID && v.Direction == direction`
  abbrev pub is_of : String → String → SpoolRecord E → Bool
  is_of task_id direction v = v.task_id =s= task_id && v.direction =s= direction

  abbrev pub is_pending_of : String → String → SpoolRecord E → Bool
  is_pending_of task_id direction v = is_of task_id direction v && is_pending v.status

  -- The first loop of `CreateCDCSpool`: the record of that id.
  unfoldable pub find_id : String → List (SpoolRecord E) → Option (SpoolRecord E)
  find_id id [] = none
  find_id id (v ∷ vs) = if v.id =s= id then some v else find_id id vs

  -- The second loop: the largest sequence of the task and direction.
  unfoldable pub max_sequence : String → String → ℕ → List (SpoolRecord E) → ℕ
  max_sequence task_id direction m [] = m
  max_sequence task_id direction m (v ∷ vs) =
      max_sequence task_id direction
        (if is_of task_id direction v && ltb m v.sequence then v.sequence else m) vs

  -- What `CreateCDCSpool` completes in a new record. `json_bytes` is `json.Marshal`'s length, if it
  -- succeeds.
  unfoldable pub complete_record : (List E → Option ℕ) → ℕ → SpoolRecord E → SpoolRecord E
  complete_record json_bytes sequence v =
      let bytes =
        (if v.payload_bytes == 0 && ltb 0 (length v.events)
          then elim (json_bytes v.events) [ none ↦ v.payload_bytes | some n ↦ n ]
          else v.payload_bytes) in
      record v {
        sequence = sequence;
        event_count = if v.event_count == 0 then length v.events else v.event_count;
        payload_bytes = bytes;
      }

  -- `CreateCDCSpool`, with the sequence that it writes into the caller's record.
  unfoldable pub create_cdc_spool : (List E → Option ℕ) → Store E → SpoolRecord E → Store E × ℕ
  unfolding find_id max_sequence complete_record
  create_cdc_spool json_bytes s v = elim (find_id v.id s.cdc_spool) [
    | some old ↦ (s, old.sequence)
    | none ↦
        let sequence = max_sequence v.task_id v.direction 0 s.cdc_spool + 1 in
        (
          record s { cdc_spool = s.cdc_spool ++ (complete_record json_bytes sequence v ∷ []) },
          sequence,
        )
  ]

  -- The pending records of a task and direction, in the store's order.
  unfoldable pub pending_records : String → String → List (SpoolRecord E) → List (SpoolRecord E)
  pending_records task_id direction [] = []
  pending_records task_id direction (v ∷ vs) =
      if is_pending_of task_id direction v
      then v ∷ pending_records task_id direction vs
      else pending_records task_id direction vs

  -- `sort.Slice` by sequence.
  unfoldable pub insert_by_sequence : SpoolRecord E → List (SpoolRecord E) → List (SpoolRecord E)
  insert_by_sequence v [] = v ∷ []
  insert_by_sequence v (w ∷ ws) =
      if ltb w.sequence v.sequence then w ∷ insert_by_sequence v ws else v ∷ w ∷ ws

  unfoldable pub sort_by_sequence : List (SpoolRecord E) → List (SpoolRecord E)
  unfolding insert_by_sequence
  sort_by_sequence [] = []
  sort_by_sequence (v ∷ vs) = insert_by_sequence v (sort_by_sequence vs)

  -- `ListCDCSpool`
  unfoldable pub list_cdc_spool : Store E → String → String → ℕ → List (SpoolRecord E)
  unfolding pending_records sort_by_sequence
  list_cdc_spool s task_id direction limit =
      let limit' = if limit == 0 || ltb 10000 limit then 200 else limit in
      take limit' (sort_by_sequence (pending_records task_id direction s.cdc_spool))

  -- `if found == nil || v.Sequence > found.Sequence`
  abbrev later : Option (SpoolRecord E) → SpoolRecord E → Option (SpoolRecord E)
  later none v = some v
  later (some w) v = if ltb w.sequence v.sequence then some v else some w

  -- The loop of `LatestPendingCDCSpool`.
  unfoldable pub latest_pending :
      String → String → Option (SpoolRecord E) → List (SpoolRecord E) → Option (SpoolRecord E)
  latest_pending task_id direction found [] = found
  latest_pending task_id direction found (v ∷ vs) =
      latest_pending task_id direction
        (if is_pending_of task_id direction v then later found v else found) vs

  unfoldable pub latest_pending_cdc_spool :
      Store E → String → String → Result StoreError (SpoolRecord E)
  unfolding latest_pending
  latest_pending_cdc_spool s task_id direction =
      elim (latest_pending task_id direction none s.cdc_spool) [
        | none ↦ err not_found
        | some v ↦ ok v
      ]

  -- The loop of `MarkCDCSpoolApplied`: the first record of that id.
  unfoldable pub mark_applied : String → ℕ → List (SpoolRecord E) → Option (List (SpoolRecord E))
  mark_applied id at [] = none
  mark_applied id at (v ∷ vs) =
      if v.id =s= id
      then some (record v { status = SpoolStatus.applied; applied_at = at } ∷ vs)
      else elim (mark_applied id at vs) [ none ↦ none | some ws ↦ some (v ∷ ws) ]

  -- `MarkCDCSpoolApplied`
  unfoldable pub mark_cdc_spool_applied : Store E → String → ℕ → Result StoreError (Store E)
  unfolding mark_applied
  mark_cdc_spool_applied s id at = elim (mark_applied id at s.cdc_spool) [
    | none ↦ err not_found
    | some spool ↦ ok (record s { cdc_spool = spool })
  ]

  abbrev pub is_applied_of : String → String → SpoolRecord E → Bool
  is_applied_of task_id direction v = is_of task_id direction v && not (is_pending v.status)

  unfoldable pub count_applied : String → String → List (SpoolRecord E) → ℕ
  count_applied task_id direction [] = 0
  count_applied task_id direction (v ∷ vs) =
      (if is_applied_of task_id direction v then 1 else 0) + count_applied task_id direction vs

  -- Drops the first `n` applied records of the task and direction.
  unfoldable pub drop_applied : String → String → ℕ → List (SpoolRecord E) → List (SpoolRecord E)
  drop_applied task_id direction n [] = []
  drop_applied task_id direction zero (v ∷ vs) = v ∷ vs
  drop_applied task_id direction (suc n) (v ∷ vs) =
      if is_applied_of task_id direction v
      then drop_applied task_id direction n vs
      else v ∷ drop_applied task_id direction (suc n) vs

  -- `DeleteAppliedCDCSpool`, for a `keep` that is not negative.
  unfoldable pub delete_applied_cdc_spool : Store E → String → String → ℕ → Store E
  unfolding count_applied drop_applied
  delete_applied_cdc_spool s task_id direction keep =
      let remove = count_applied task_id direction s.cdc_spool - keep in
      record s { cdc_spool = drop_applied task_id direction remove s.cdc_spool }

  -- The loop of `CDCSpoolStats`.
  unfoldable pub add_stats : String → String → SpoolStats → List (SpoolRecord E) → SpoolStats
  add_stats task_id direction out [] = out
  add_stats task_id direction out (v ∷ vs) =
      add_stats task_id direction
        (if is_pending_of task_id direction v
          then record {
            pending_transactions = out.pending_transactions + 1;
            pending_events = out.pending_events + v.event_count;
            pending_bytes = out.pending_bytes + v.payload_bytes;
            first_position =
                if out.first_position =s= "" then v.position_value else out.first_position;
            last_position = v.position_value;
          }
          else out)
        vs

  -- `CDCSpoolStats`
  unfoldable pub cdc_spool_stats : Store E → String → String → SpoolStats
  unfolding add_stats
  cdc_spool_stats s task_id direction = add_stats task_id direction no_stats s.cdc_spool
