-- ===== src/PgOutput/Text.antt =====
-- The texts that parser.go makes of numbers and bytes: `%X`, `FormatUint`, base64, and `UnixMilli`.
use dts.Common.{ℕ, zero, suc, ◌+◌, ◌-◌, ◌*◌, ◌/◌, ◌%◌, ◌^◌, ◌==◌, ltb, if◌then◌else◌, [], ◌∷◌, ◌++◌}
use dts.Common.Bytes.{Bytes}

-- A digit of a base up to 16, in upper case.
abbrev pub digit : ℕ → ℕ
digit d = if ltb d 10 then 48 + d else 55 + d

-- The digits of a number, at most as many as the first argument, without leading zeros.
unfoldable pub digits : ℕ → ℕ → ℕ → Bytes
digits zero base n = []
digits (suc k) base n =
    let high = digits k base (n / base) in
    (if n / base == 0 then [] else high) ++ (digit (n % base) ∷ [])

-- `FormatLSN`: 8 digits are enough for 32 bits.
unfoldable pub format_lsn : ℕ → Bytes
unfolding digits
format_lsn v = digits 8 16 (v / 2 ^ 32) ++ (47 ∷ digits 8 16 (v % 2 ^ 32))

-- `strconv.FormatUint(v, 10)`: 20 digits are enough for 64 bits.
unfoldable pub format_uint : ℕ → Bytes
unfolding digits
format_uint v = digits 20 10 v

-- The alphabet of `base64.StdEncoding`.
abbrev pub base64_char : ℕ → ℕ
base64_char v =
    if ltb v 26
    then 65 + v
    else (if ltb v 52 then 71 + v else (if ltb v 62 then v - 4 else (if v == 62 then 43 else 47)))

-- `base64.StdEncoding.EncodeToString`
unfoldable pub encode_base64 : Bytes → Bytes
encode_base64 [] = []
encode_base64 (a ∷ []) = base64_char (a / 4) ∷ base64_char (a % 4 * 16) ∷ 61 ∷ 61 ∷ []
encode_base64 (a ∷ b ∷ []) =
    base64_char (a / 4) ∷ base64_char (a % 4 * 16 + b / 16) ∷ base64_char (b % 16 * 4) ∷ 61 ∷ []
encode_base64 (a ∷ b ∷ c ∷ rest) =
    base64_char (a / 4)
    ∷ base64_char (a % 4 * 16 + b / 16)
    ∷ base64_char (b % 16 * 4 + c / 64)
    ∷ base64_char (c % 64)
    ∷ encode_base64 rest

-- `postgresTime(int64(micros)).UnixMilli()`, as the 64 bits of an int64. The product with
-- `time.Microsecond` wraps around; milliseconds are rounded down; 2000-01-01 is 946684800 seconds on.
unfoldable pub unix_milli : ℕ → ℕ
unix_milli micros =
    let nanos = micros * 1000 % 2 ^ 64 in
    if ltb nanos (2 ^ 63)
    then 946684800000 + nanos / 1000000
    else (946684800000 + 2 ^ 64 - (2 ^ 64 - nanos + 999999) / 1000000) % 2 ^ 64
