-- ===== src/Store/Positions.antt =====
-- memory.go: the CDC checkpoints, oldest first.
pub mod Compaction
use dts.Common.{
  ℕ, zero, suc, String, Bool, false, List, [], ◌∷◌, ◌++◌, ◌||◌, ◌&&◌, ◌==◌, ◌=s=◌, ltb, leb,
  if◌then◌else◌, take, length, map,
}
use mathlib.Core.List.{reverse}
use dts.Domain.{CdcPosition}
use dts.Store.Defs.{Store}

-- The loop of `ListCDCPositions`, over the positions from the newest on.
unfoldable pub positions_of : String → List CdcPosition → List CdcPosition
positions_of task_id [] = []
positions_of task_id (p ∷ ps) =
    if p.task_id =s= task_id then p ∷ positions_of task_id ps else positions_of task_id ps

-- `ListCDCPositions`
unfoldable pub list_cdc_positions : {E : Type 0} → Store E → String → ℕ → List CdcPosition
unfolding positions_of
list_cdc_positions s task_id limit =
    let limit' = if limit == 0 || ltb 1000 limit then 200 else limit in
    take limit' (positions_of task_id (reverse s.cdc_positions))

-- The key `in[i].TaskID + "\x00" + in[i].Direction` of the two is the same: neither holds a NUL.
abbrev pub same_stream : CdcPosition → CdcPosition → Bool
same_stream p q = p.task_id =s= q.task_id && p.direction =s= q.direction

-- The map `latest`: of each stream, the position that is the latest so far, and its index.
abbrev pub Latest : Type 0
Latest = List (CdcPosition × ℕ)

-- One step of the first loop of `compactCDCPositionsHardLimit`.
unfoldable pub note_latest : ℕ → CdcPosition → Latest → Latest
note_latest i p [] = (p, i) ∷ []
note_latest i p ((q, j) ∷ latest) =
    if same_stream q p
    then (if ltb q.recorded_at p.recorded_at || (q.recorded_at == p.recorded_at && ltb j i)
        then (p, i) ∷ latest
        else (q, j) ∷ latest)
    else (q, j) ∷ note_latest i p latest

-- That loop, from the index on.
unfoldable pub find_latest : ℕ → List CdcPosition → Latest → Latest
unfolding note_latest
find_latest i [] latest = latest
find_latest i (p ∷ ps) latest = find_latest (suc i) ps (note_latest i p latest)

-- `keep[i]`
unfoldable pub is_kept : ℕ → List ℕ → Bool
is_kept i [] = false
is_kept i (k ∷ ks) = k == i || is_kept i ks

-- The loop that keeps the newest others, from the index before `i` down, while there is room.
unfoldable pub keep_newest : ℕ → ℕ → List ℕ → List ℕ
unfolding is_kept
keep_newest zero limit keep = keep
keep_newest (suc i) limit keep =
    if ltb (length keep) limit
    then keep_newest i limit (if is_kept i keep then keep else i ∷ keep)
    else keep

-- The last loop: the kept positions, in their order.
unfoldable pub kept_positions : ℕ → List CdcPosition → List ℕ → List CdcPosition
unfolding is_kept
kept_positions i [] keep = []
kept_positions i (p ∷ ps) keep =
    if is_kept i keep then p ∷ kept_positions (suc i) ps keep else kept_positions (suc i) ps keep

-- `compactCDCPositionsHardLimit`
unfoldable pub compact_cdc_positions_hard_limit : List CdcPosition → ℕ → List CdcPosition
unfolding find_latest keep_newest kept_positions
compact_cdc_positions_hard_limit ps limit =
    if limit == 0 || leb (length ps) limit
    then ps
    else kept_positions 0 ps
        (keep_newest (length ps) limit (map (λ entry. entry.1) (find_latest 0 ps [])))

-- `CreateCDCPosition`
unfoldable pub create_cdc_position : {E : Type 0} → Store E → CdcPosition → Store E
unfolding compact_cdc_positions_hard_limit
create_cdc_position s p =
    let all = s.cdc_positions ++ (p ∷ []) in
    record s {
      cdc_positions =
          if ltb 60000 (length all) then compact_cdc_positions_hard_limit all 50000 else all;
    }
