-- ===== src/Binlog/Gtid.antt =====
-- backend/internal/cdc/mysqlbinlog/gtid.go: sets of transaction numbers as intervals. The texts that
-- `ParseGTIDSet` and `Add` split are left out; what they do with the numbers is here. Numbers are those
-- of a uint64, and `End+1` wraps round as it does there.
pub mod Meaning
pub mod Canonical
use mathlib.Core.List.{reverse}
use dts.Common.{
  ℕ, zero, suc, String, Bool, true, false, ◌+◌, ◌%◌, ◌^◌, ◌&&◌, ◌||◌, ◌==◌, ltb, leb, if◌then◌else◌,
  List, [], ◌∷◌, ◌++◌, none, some, length,
}
use dts.Common.Bytes.{Bytes, to_le}
use dts.Common.Keyed.{lookup, insert}

-- `GTIDInterval`: both bounds belong to it.
pub record Interval : Type 0 where
  pub start : ℕ
  pub end : ℕ

-- The order of the `sort.Slice` in `normalizeSID`.
unfoldable pub less : Interval → Interval → Bool
less i j = if i.start == j.start then ltb i.end j.end else ltb i.start j.start

unfoldable pub insert_sorted : Interval → List Interval → List Interval
insert_sorted i [] = i ∷ []
insert_sorted i (j ∷ js) = if less j i then j ∷ insert_sorted i js else i ∷ j ∷ js

-- Intervals that the order does not tell apart are equal, so every sort returns this list.
unfoldable pub sort_intervals : List Interval → List Interval
sort_intervals [] = []
sort_intervals (i ∷ is) = insert_sorted i (sort_intervals is)

-- One round of the loop over the sorted intervals. `merged` stands with its last item first.
unfoldable pub extend : List Interval → Interval → List Interval
extend [] cur = cur ∷ []
extend (top ∷ merged) cur =
    if ltb ((top.end + 1) % 2 ^ 64) cur.start
    then cur ∷ top ∷ merged
    else (if ltb top.end cur.end then record top { end = cur.end } ∷ merged else top ∷ merged)

unfoldable pub merge_loop : List Interval → List Interval → List Interval
merge_loop merged [] = merged
merge_loop merged (cur ∷ rest) = merge_loop (extend merged cur) rest

-- The body of `normalizeSID`.
unfoldable pub normalize_intervals : List Interval → List Interval
normalize_intervals is = reverse (merge_loop [] (sort_intervals is))

-- `GTIDSet`
abbrev pub GtidSet : Type 0
GtidSet = List (String × List Interval)

-- `s.sets[sid]`, nil for a missing key.
abbrev pub intervals_of : String → GtidSet → List Interval
intervals_of sid s = elim (lookup sid s) [ none ↦ [] | some is ↦ is ]

-- `normalizeSID`
unfoldable pub normalize_sid : String → GtidSet → GtidSet
normalize_sid sid s = insert sid (normalize_intervals (intervals_of sid s)) s

-- `Add`, from the parsed transaction on.
unfoldable pub add : String → ℕ → GtidSet → GtidSet
unfolding normalize_sid
add sid gno s =
    normalize_sid sid (insert sid (intervals_of sid s ++ record { start = gno; end = gno } ∷ []) s)

-- The innermost loop of `EncodeSIDBlock`: the end is exclusive on the wire.
unfoldable pub encode_intervals : List Interval → Bytes
encode_intervals [] = []
encode_intervals (i ∷ is) =
    to_le 8 i.start ++ (to_le 8 ((i.end + 1) % 2 ^ 64) ++ encode_intervals is)

-- `EncodeSIDBlock` of normalised intervals, under the sorted ids, each as the 16 bytes that it spells.
unfoldable pub encode_sids : List (Bytes × List Interval) → Bytes
encode_sids [] = []
encode_sids ((sid, is) ∷ sids) =
    sid ++ (to_le 8 (length is) ++ (encode_intervals is ++ encode_sids sids))

unfoldable pub encode_sid_block : List (Bytes × List Interval) → Bytes
encode_sid_block sids = to_le 8 (length sids) ++ encode_sids sids
