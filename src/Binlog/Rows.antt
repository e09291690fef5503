-- ===== src/Binlog/Rows.antt =====
-- parser.go: the table map and the row events. Go's `int` of a column count is its 64 bits as a signed
-- number; a slice with a negative length panics.
use dts.Common.{
  ℕ, ◌+◌, ◌-◌, ◌/◌, ◌%◌, ◌^◌, ◌≤◌, ◌<◌, ◌≡◌, Bool, false, ◌&&◌, ◌||◌, ◌==◌, ltb, leb, if◌then◌else◌,
  [], ◌∷◌, ◌++◌, Option, none, some, Result, ok, err, length, take, drop, arith, ap, sym, ◌∙◌,
  length-append, drop-append,
}
use dts.Common.Bytes.{Bytes, from_le, to_le, from_le-to_le_eight}
use dts.Binlog.Events.{Event, le_at, byte_at}

-- The errors of these parsers, and the panic of the run-time system.
pub data RowsError : Type 0 where
  short_payload missing_integer short_integer null_integer bad_length panic : RowsError

abbrev pub then_ :
    {A B : Type 0} → Result RowsError A → (A → Result RowsError B) → Result RowsError B
then_ (ok a) f = f a
then_ (err e) f = err e

-- `readLenEnc`: the number, and how many bytes it takes.
unfoldable pub read_len_enc : Bytes → Result RowsError (ℕ × ℕ)
read_len_enc [] = err missing_integer
read_len_enc (b ∷ bs) =
    if b == 252
    then (if ltb (length bs) 2 then err short_integer else ok (from_le (take 2 bs), 3))
    else (if b == 253
        then (if ltb (length bs) 3 then err short_integer else ok (from_le (take 3 bs), 4))
        else (if b == 254
            then (if ltb (length bs) 8 then err short_integer else ok (from_le (take 8 bs), 9))
            else (if b == 251 then err null_integer else ok (b, 1))))

-- `TableMap`
pub record TableMap : Type 0 where
  pub table_id : ℕ
  pub flags : ℕ
  pub schema : Bytes
  pub table : Bytes
  pub column_types : Bytes
  pub column_meta : Bytes
  pub null_bitmap : Bytes

-- A counted block of bytes: `readLenEnc`, the test of the count, the bytes, and what follows.
unfoldable pub counted : Bytes → Result RowsError (Bytes × Bytes)
unfolding read_len_enc
counted p = then_ (read_len_enc p) (λ (count, n).
    if ltb (length p - n) count
    then err bad_length
    else ok (take count (drop n p), drop (n + count) p))

-- The columns of `ParseTableMap`.
unfoldable pub parse_columns :
    Bytes → (Bytes → Bytes → Bytes → TableMap) → Result RowsError TableMap
unfolding counted
parse_columns p make = then_ (counted p) (λ (types, p'). then_ (counted p') (λ (meta, p'').
    let null_len = (length types + 7) / 8 in
    if ltb (length p'') null_len then err bad_length else ok (make types meta (take null_len p''))))

-- `ParseTableMap`, once the type is known.
unfoldable pub parse_table_map : Event → Result RowsError TableMap
unfolding parse_columns
parse_table_map e =
    let p = e.payload in
    let schema_len = byte_at 8 p in
    let table_at = 9 + schema_len + 1 in
    let table_len = byte_at table_at p in
    let columns_at = table_at + 1 + table_len + 1 in
    if ltb (length p) 10
    then err short_payload
    else (if ltb (length p) table_at
        then err bad_length
        else (if leb (length p) table_at
            then err bad_length
            else (if ltb (length p) columns_at
                then err bad_length
                else parse_columns (drop columns_at p) (λ types meta nulls. record {
                  table_id = le_at 0 6 p;
                  flags = le_at 6 2 p;
                  schema = take schema_len (drop 9 p);
                  table = take table_len (drop (table_at + 1) p);
                  column_types = types;
                  column_meta = meta;
                  null_bitmap = nulls;
                }))))

-- `Rows`
pub record Rows : Type 0 where
  pub event_type : ℕ
  pub table_id : ℕ
  pub flags : ℕ
  pub column_count : ℕ
  pub before_bitmap : Bytes
  pub after_bitmap : Bytes
  pub row_data : Bytes
  pub update : Bool

-- `(int(count) + 7) / 8` in 64 bits, rounded towards zero; `none` is negative.
unfoldable pub bitmap_len : ℕ → Option ℕ
bitmap_len count =
    let s = (count + 7) % 2 ^ 64 in
    if ltb s (2 ^ 63) then some (s / 8) else (if ltb (2 ^ 64) (s + 8) then some 0 else none)

-- `p[off:off+bitmapLen]` after its test, and what follows.
unfoldable pub bitmap : Option ℕ → Bytes → Result RowsError (Bytes × Bytes)
bitmap none p = err panic
bitmap (some n) p = if ltb (length p) n then err bad_length else ok (take n p, drop n p)

-- The update events, and the events with extra data.
abbrev pub is_update : ℕ → Bool
is_update t = t == 24 || t == 31 || t == 39

abbrev pub has_extra : ℕ → Bool
has_extra t = leb 30 t && leb t 32 || t == 39

-- The result of `ParseRows`.
abbrev pub rows : Event → ℕ → Bytes → Bytes → Bytes → Rows
rows e count before after rest = record {
  event_type = e.header.type_;
  table_id = le_at 0 6 e.payload;
  flags = le_at 6 2 e.payload;
  column_count = count;
  before_bitmap = before;
  after_bitmap = after;
  row_data = rest;
  update = is_update e.header.type_;
}

-- The part of `ParseRows` that follows the extra data.
unfoldable pub parse_bitmaps : Event → Bytes → Result RowsError Rows
unfolding read_len_enc bitmap_len bitmap
parse_bitmaps e p = then_ (read_len_enc p) (λ (count, n).
    then_ (bitmap (bitmap_len count) (drop n p)) (λ (before, p').
      if is_update e.header.type_
      then then_ (bitmap (bitmap_len count) p') (λ (after, p''). ok (rows e count before after p''))
      else ok (rows e count before [] p')))

-- `ParseRows` of a row event.
unfoldable pub parse_rows : Event → Result RowsError Rows
unfolding parse_bitmaps
parse_rows e =
    let p = e.payload in
    let extra = le_at 8 2 p in
    if ltb (length p) 8
    then err short_payload
    else (if has_extra e.header.type_
        then (if ltb (length p) 10
            then err short_payload
            else (if ltb extra 2 || ltb (length p) (8 + extra)
                then err bad_length
                else parse_bitmaps e (drop (8 + extra) p)))
        else parse_bitmaps e (drop 8 p))

read_len_enc-long :
    (count : ℕ) (rest : Bytes)
    → read_len_enc (254 ∷ to_le 8 count ++ rest) ≡ ok (from_le (to_le 8 count), 9)
unfolding read_len_enc
read_len_enc-long count rest = ground arith

bitmap_len-negative : (count : ℕ) → 2 ^ 63 ≤ count → count < 2 ^ 64 - 14 → bitmap_len count ≡ none
unfolding bitmap_len
bitmap_len-negative count low high = ground (arith, low, high)

bitmaps_panic :
    (e : Event) (count : ℕ) (rest : Bytes)
    → 2 ^ 63 ≤ count
    → count < 2 ^ 64 - 14
    → parse_bitmaps e (254 ∷ to_le 8 count ++ rest) ≡ err panic
unfolding parse_bitmaps bitmap
bitmaps_panic e count rest low high =
    let read =
      read_len_enc-long count rest
      ∙ ap (λ v. ok (v, 9)) (from_le-to_le_eight count (omega (arith, high))) in
    ground (arith, read, bitmap_len-negative count low high)

-- `ParseRows` of a row event of version 1 with a column count from 2^63 on, up to 15 below 2^64, in the
-- long form, panics: the length of the bitmap is negative, and nothing tests the count before.
pub parse_rows_panic :
    (e : Event) (fixed rest : Bytes) (count : ℕ)
    → has_extra e.header.type_ ≡ false
    → length fixed ≡ 8
    → e.payload ≡ fixed ++ (254 ∷ to_le 8 count ++ rest)
    → 2 ^ 63 ≤ count
    → count < 2 ^ 64 - 14
    → parse_rows e ≡ err panic
unfolding parse_rows
parse_rows_panic e fixed rest count old eight layout low high =
    let tail = 254 ∷ to_le 8 count ++ rest in
    let long : ltb (length e.payload) 8 ≡ false =
      ground (arith, ap length layout, length-append fixed tail, eight) in
    let after : drop 8 e.payload ≡ tail =
      ap (drop 8) layout ∙ ap (λ n. drop n (fixed ++ tail)) (sym eight) ∙ drop-append fixed tail in
    let panics : parse_bitmaps e (drop 8 e.payload) ≡ err panic =
      ap (parse_bitmaps e) after ∙ bitmaps_panic e count rest low high in
    ground (arith, long, old, panics)
