-- ===== src/Validation/Values.antt =====
-- checksum.go: the canonical form of a value, and the bytes of a row that a checksum hashes.
use mathlib.Core.Option.{map as map_option}
use dts.Common.{
  ℕ, String, Bool, true, false, ◌||◌, if◌then◌else◌, List, [], ◌∷◌, ◌++◌, Option, none, some,
  length,
}
use dts.Common.Bytes.{Bytes, codes, bytes_eq, to_lower, trim_space, to_le}

-- `connector.Value`
pub record Value : Type 0 where
  pub null : Bool
  pub raw : Bytes

abbrev pub Row : Type 0
Row = List Value

-- What `canonicalValue` reads of `domain.ColumnInfo`.
pub record Column : Type 0 where
  pub data_type : Bytes
  pub column_type : Bytes

-- What math/big makes of the text of a number (`Rat.SetString`, then `RatString`), and encoding/json of a
-- document (`Unmarshal`, then `Marshal`), if they accept it; and SHA-256 as a number.
pub record Formats : Type 0 where
  pub rat_string : Bytes → Option Bytes
  pub json_text : Bytes → Option Bytes
  pub sha256 : Bytes → ℕ

abbrev pub is_one_of : List String → Bytes → Bool
is_one_of [] s = false
is_one_of (name ∷ names) s = bytes_eq s (codes name) || is_one_of names s

-- `isNumericType`
abbrev pub is_numeric_type : Bytes → Bool
is_numeric_type = is_one_of (
    "tinyint" ∷ "smallint" ∷ "mediumint" ∷ "int" ∷ "integer" ∷ "bigint" ∷ "int2" ∷ "int4" ∷ "int8"
    ∷ "decimal" ∷ "numeric" ∷ "float" ∷ "double" ∷ "double precision" ∷ "real" ∷ "float4" ∷ "float8"
    ∷ [])

-- The column holds truth values.
abbrev pub is_boolean : Bytes → Bytes → Bool
is_boolean data_type column_type =
    is_one_of ("boolean" ∷ "bool" ∷ []) data_type
    || is_one_of ("tinyint(1)" ∷ "bit(1)" ∷ []) column_type

-- The switch on the text of a truth value.
abbrev pub truth_text : Bytes → Option Bytes
truth_text s =
    if is_one_of ("1" ∷ "t" ∷ "true" ∷ "yes" ∷ "y" ∷ []) s
    then some (codes "1")
    else (if is_one_of ("0" ∷ "f" ∷ "false" ∷ "no" ∷ "n" ∷ []) s then some (codes "0") else none)

-- The first result there is, or else the default: a chain of `if ... { return }`.
abbrev pub first_of : List (Option Bytes) → Bytes → Bytes
first_of [] default = default
first_of (none ∷ os) default = first_of os default
first_of (some b ∷ os) default = b

abbrev pub when : Bool → Option Bytes → Option Bytes
when true o = o
when false o = none

-- `canonicalValue`
unfoldable pub canonical_value : Formats → Column → Bytes → Bytes
unfolding trim_space
canonical_value formats col raw =
    let dt = to_lower (trim_space col.data_type) in
    let ct = to_lower (trim_space col.column_type) in
    let s = trim_space raw in
    first_of
      (when (is_boolean dt ct) (truth_text (to_lower s))
        ∷ when (is_numeric_type dt) (formats.rat_string s)
        ∷ when (is_one_of ("json" ∷ "jsonb" ∷ []) dt) (formats.json_text raw)
        ∷ when (is_one_of ("uuid" ∷ []) dt) (some (to_lower s))
        ∷ [])
      raw

-- The canonical row, with `none` for NULL; or nothing if the index into the columns is out of range, where
-- the code panics.
unfoldable pub canonical_row : Formats → List Column → Row → Option (List (Option Bytes))
unfolding canonical_value
canonical_row formats cols [] = some []
canonical_row formats [] (v ∷ vs) =
    let rest = canonical_row formats [] vs in
    if v.null then map_option (λ cells. none ∷ cells) rest else none
canonical_row formats (col ∷ cols) (v ∷ vs) =
    let rest = canonical_row formats cols vs in
    let cell : Option Bytes = if v.null then none else some (canonical_value formats col v.raw) in
    map_option (λ cells. cell ∷ cells) rest

-- What the loop over a row writes to its hash: the bytes of a value, and the end of the row.
abbrev pub cell_bytes : Option Bytes → Bytes
cell_bytes none = 255 ∷ []
cell_bytes (some raw) = 0 ∷ to_le 8 (length raw) ++ raw

unfoldable pub row_bytes : List (Option Bytes) → Bytes
row_bytes [] = 254 ∷ []
row_bytes (cell ∷ cells) = cell_bytes cell ++ row_bytes cells
