-- ===== src/PgOutput/Wire.antt =====
-- parser.go: the errors, the cursor over a message, and `ParseCopyData`. The cursor is the list of the
-- bytes that it has not read; one that has returned an error is not used again.
use dts.Common.{ℕ, ◌≡◌, ap, ◌==◌, ltb, if◌then◌else◌, [], ◌∷◌, Result, ok, err, length, take, drop}
use dts.Common.Bytes.{Bytes, from_be}

-- The errors of the package.
pub data PgError : Type 0 where
  empty_copy_data short_keepalive short_xlog_data empty_message short_message unterminated_cstring :
      PgError
  field_too_large commit_without_begin outside_transaction : PgError
  unsupported_copy_data unsupported_tuple_kind unknown_relation wrong_tag unsupported_message :
      ℕ → PgError

-- What reads from a cursor.
abbrev pub Parse : Type 0 → Type 0
Parse A = Bytes → Result PgError (A × Bytes)

infixl 5 ◌>>=◌ ◌>>◌
unfoldable pub ◌>>=◌ : {A B : Type 0} → Parse A → (A → Parse B) → Parse B
◌>>=◌ m f c = elim (m c) [ ok (a, c') ↦ f a c' | err e ↦ err e ]

-- A first step that succeeds.
pub >>=-step :
    {A B : Type 0} (m : Parse A) (f : A → Parse B) {c c' : Bytes} {a : A}
    → m c ≡ ok (a, c')
    → (m >>= f) c ≡ f a c'
unfolding ◌>>=◌
>>=-step m f h = ap (λ r. elim r [ ok (b, k) ↦ f b k | err e ↦ err e ]) h

abbrev pub ◌>>◌ : {A B : Type 0} → Parse A → Parse B → Parse B
m >> k = m >>= λ _. k

abbrev pub give : {A : Type 0} → A → Parse A
give a c = ok (a, c)

abbrev pub raise : {A : Type 0} → PgError → Parse A
raise e c = err e

-- `bytes`: the next `n` bytes, by `need`.
unfoldable pub bytes : ℕ → Parse Bytes
bytes n c = if ltb (length c) n then err short_message else ok (take n c, drop n c)

-- `u8`
unfoldable pub u8 : Parse ℕ
u8 [] = err short_message
u8 (b ∷ c) = ok (b, c)

-- `u16`, `u32` and `u64`: big-endian numbers.
unfoldable pub u16 : Parse ℕ
unfolding bytes
u16 = do bs ← bytes 2; give (from_be 0 bs)

unfoldable pub u32 : Parse ℕ
unfolding bytes
u32 = do bs ← bytes 4; give (from_be 0 bs)

unfoldable pub u64 : Parse ℕ
unfolding bytes
u64 = do bs ← bytes 8; give (from_be 0 bs)

-- `cstr`: the bytes before the next NUL.
unfoldable pub cstr : Parse Bytes
cstr [] = err unterminated_cstring
cstr (b ∷ c) =
    let rest = cstr c in
    if b == 0 then ok ([], c) else elim rest [ ok (s, c') ↦ ok (b ∷ s, c') | err e ↦ err e ]

-- `XLogData`
pub record XLogData : Type 0 where
  pub wal_start : ℕ
  pub wal_end : ℕ
  pub server_time : ℕ
  pub plugin : Bytes

-- What `ParseCopyData` returns without an error; times are PostgreSQL's microseconds.
pub data CopyData : Type 0 where
  keepalive : CopyData
  xlog : XLogData → CopyData

-- `ParseCopyData`
unfoldable pub parse_copy_data : Bytes → Result PgError CopyData
parse_copy_data [] = err empty_copy_data
parse_copy_data (b ∷ rest) =
    let p = b ∷ rest in
    if b == 107
    then (if ltb (length p) 18 then err short_keepalive else ok keepalive)
    else (if b == 119
        then (if ltb (length p) 25
            then err short_xlog_data
            else ok (
                xlog (record {
                  wal_start = from_be 0 (take 8 (drop 1 p));
                  wal_end = from_be 0 (take 8 (drop 9 p));
                  server_time = from_be 0 (take 8 (drop 17 p));
                  plugin = drop 25 p;
                })))
        else err (unsupported_copy_data b))
