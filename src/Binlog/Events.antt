-- ===== src/Binlog/Events.antt =====
-- parser.go: the frame of an event, and the rotate, query and XID events. gtid.go: the GTID event. Texts
-- are bytes; the comparison of SQL words without regard to case, and the trimming, are those of ASCII.
use dts.Common.{
  ℕ, ◌+◌, ◌-◌, ◌/◌, ◌%◌, Bool, ◌&&◌, not, ◌==◌, ltb, leb, if◌then◌else◌, [], ◌∷◌, ◌++◌, Result, ok,
  err, length, take, drop,
}
use dts.Common.Bytes.{Bytes, from_le, bytes_eq, trim_space, hex_digit}
use dts.PgOutput.Text.{format_uint}

pub data BinlogError : Type 0 where
  too_short invalid_size size_mismatch invalid_checksum_length payload_too_short : BinlogError
  wrong_type invalid_length : BinlogError

-- `Header`
pub record Header : Type 0 where
  pub timestamp : ℕ
  pub type_ : ℕ
  pub server_id : ℕ
  pub event_size : ℕ
  pub log_pos : ℕ
  pub flags : ℕ

-- `Event`
pub record Event : Type 0 where
  pub header : Header
  pub payload : Bytes

-- The little-endian number in `n` bytes at an offset.
abbrev pub le_at : ℕ → ℕ → Bytes → ℕ
le_at offset n bs = from_le (take n (drop offset bs))

-- The byte at an offset.
abbrev pub byte_at : ℕ → Bytes → ℕ
byte_at offset bs = le_at offset 1 bs

abbrev pub header_of : Bytes → Header
header_of raw = record {
  timestamp = le_at 0 4 raw;
  type_ = byte_at 4 raw;
  server_id = le_at 5 4 raw;
  event_size = le_at 9 4 raw;
  log_pos = le_at 13 4 raw;
  flags = le_at 17 2 raw;
}

-- `Parser.Parse`, for a `ChecksumBytes` that is not negative.
unfoldable pub parse : ℕ → Bytes → Result BinlogError Event
parse checksum_bytes raw =
    if ltb (length raw) 19
    then err too_short
    else (if ltb (header_of raw).event_size 19
        then err invalid_size
        else (if not ((header_of raw).event_size == length raw)
            then err size_mismatch
            else (if ltb (length raw) (19 + checksum_bytes)
                then err invalid_checksum_length
                else ok (record {
                  header = header_of raw;
                  payload = take (length raw - checksum_bytes - 19) (drop 19 raw);
                }))))

-- The file of `ParseRotate`, once the type is known.
unfoldable pub parse_rotate : Event → Result BinlogError Bytes
parse_rotate e = if ltb (length e.payload) 8 then err payload_too_short else ok (drop 8 e.payload)

-- `Query`
pub record Query : Type 0 where
  pub thread_id : ℕ
  pub schema : Bytes
  pub sql : Bytes

-- `ParseQuery`, once the type is known.
unfoldable pub parse_query : Event → Result BinlogError Query
parse_query e =
    let p = e.payload in
    let schema_len = byte_at 8 p in
    let off = 13 + le_at 11 2 p in
    if ltb (length p) 13
    then err payload_too_short
    else (if ltb (length p) (off + schema_len + 1)
        then err invalid_length
        else ok (record {
          thread_id = le_at 0 4 p;
          schema = take schema_len (drop off p);
          sql = drop (off + schema_len + 1) p;
        }))

-- `ParseXID`, once the type is known.
unfoldable pub parse_xid : Event → Result BinlogError ℕ
parse_xid e = if ltb (length e.payload) 8 then err payload_too_short else ok (le_at 0 8 e.payload)

abbrev pub upper : ℕ → ℕ
upper c = if leb 97 c && leb c 122 then c - 32 else c

unfoldable pub upper_all : Bytes → Bytes
upper_all [] = []
upper_all (c ∷ cs) = upper c ∷ upper_all cs

-- `strings.EqualFold(strings.TrimSpace(q.SQL), word)`, for a word in upper case; `IsBeginQuery` is that
-- of BEGIN.
unfoldable pub is_word : Bytes → Query → Bool
unfolding trim_space upper_all
is_word word q = bytes_eq (upper_all (trim_space q.sql)) word

-- `%x` of bytes.
unfoldable pub hex : Bytes → Bytes
hex [] = []
hex (b ∷ bs) = hex_digit (b / 16) ∷ hex_digit (b % 16) ∷ hex bs

-- The text of a SID: `%x-%x-%x-%x-%x` of its 16 bytes.
unfoldable pub format_sid : Bytes → Bytes
unfolding hex
format_sid sid =
    hex (take 4 sid)
    ++ (45 ∷ hex (take 2 (drop 4 sid))
        ++ (45 ∷ hex (take 2 (drop 6 sid))
            ++ (45 ∷ hex (take 2 (drop 8 sid)) ++ (45 ∷ hex (drop 10 sid)))))

-- `ParseGTIDEvent`, once the type is known, and `GTID.String`: an anonymous one is the empty text.
unfoldable pub parse_gtid : Event → Result BinlogError Bytes
unfolding format_sid format_uint
parse_gtid e =
    let gno = le_at 17 8 e.payload in
    if ltb (length e.payload) 25
    then err payload_too_short
    else ok
        (if gno == 0 then [] else format_sid (take 16 (drop 1 e.payload)) ++ (58 ∷ format_uint gno))
