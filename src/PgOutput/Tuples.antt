-- ===== src/PgOutput/Tuples.antt =====
-- parser.go: relations, tuples, and the fields that a tuple gives to an event.
use dts.Common.{
  ℕ, zero, suc, ◌*◌, ◌%◌, ◌^◌, Bool, ◌||◌, ◌&&◌, not, ◌==◌, ltb, if◌then◌else◌, List, [], ◌∷◌,
  length,
}
use dts.Common.Bytes.{Bytes, codes}
use dts.Domain.{CdcField}
use dts.PgOutput.Wire.{
  field_too_large, unsupported_tuple_kind, Parse, ◌>>=◌, give, raise, bytes, u8, u16, u32, cstr,
}
use dts.PgOutput.Text.{encode_base64}

-- `Column`; the modifier is the 32 bits of an int32.
pub record Column : Type 0 where
  pub flags : ℕ
  pub name : Bytes
  pub type_oid : ℕ
  pub type_modifier : ℕ

-- `Relation`
pub record Relation : Type 0 where
  pub id : ℕ
  pub namespace : Bytes
  pub name : Bytes
  pub replica_identity : ℕ
  pub columns : List Column

-- `TupleValue`; no data is the empty list.
pub record TupleValue : Type 0 where
  pub kind : ℕ
  pub data_ : Bytes

-- The body of the loop of `parseTuple`: the cases with data,
unfoldable pub parse_data : ℕ → Parse TupleValue
unfolding u32 bytes
parse_data kind = do
  l ← u32
  (if ltb (128 * 2 ^ 20) l
      then raise field_too_large
      else (do v ← bytes l; give (record { kind = kind; data_ = v })))

-- and all of them.
unfoldable pub parse_value : Parse TupleValue
unfolding u8 parse_data
parse_value = do
  kind ← u8
  (if kind == 110 || kind == 117
      then give (record { kind = kind; data_ = [] })
      else (if kind == 116 || kind == 98
          then parse_data kind
          else raise (unsupported_tuple_kind kind)))

unfoldable pub parse_values : ℕ → Parse (List TupleValue)
unfolding parse_value
parse_values zero = give []
parse_values (suc n) = let rest = parse_values n in do v ← parse_value; vs ← rest; give (v ∷ vs)

-- `parseTuple`
unfoldable pub parse_tuple : Parse (List TupleValue)
unfolding u16 parse_values
parse_tuple = do n ← u16; parse_values n

-- The key columns of a relation: those with the flag 1.
unfoldable pub key_columns : List Column → List Column
key_columns [] = []
key_columns (c ∷ cs) = if c.flags % 2 == 1 then c ∷ key_columns cs else key_columns cs

-- `columns` of `tupleFields`.
unfoldable pub columns_for : Relation → List TupleValue → Bool → List Column
unfolding key_columns
columns_for rel values key_only =
    let keys = key_columns rel.columns in
    if key_only && not (length values == length rel.columns) && length keys == length values
    then keys
    else rel.columns

-- The field of a value in its column.
abbrev pub field_of : Column → TupleValue → CdcField Bytes
field_of column v = record {
  column = column.name;
  null = v.kind == 110;
  value = if v.kind == 116 then v.data_ else (if v.kind == 98 then encode_base64 v.data_ else []);
  encoding = if v.kind == 98 then codes "base64" else [];
}

-- The last loop of `tupleFields`.
unfoldable pub fields_of : List Column → List TupleValue → List (CdcField Bytes)
unfolding encode_base64
fields_of columns [] = []
fields_of [] (v ∷ values) = []
fields_of (column ∷ columns) (v ∷ values) =
    if v.kind == 117 then fields_of columns values else field_of column v ∷ fields_of columns values

-- `tupleFields`
unfoldable pub tuple_fields : Relation → List TupleValue → Bool → List (CdcField Bytes)
unfolding columns_for fields_of
tuple_fields rel values key_only = fields_of (columns_for rel values key_only) values

-- The loop of `decodeRelation`.
unfoldable pub parse_columns : ℕ → Parse (List Column)
unfolding u8 cstr u32
parse_columns zero = give []
parse_columns (suc n) =
    let rest = parse_columns n in
    do
      flags ← u8
      name ← cstr
      oid ← u32
      mod_ ← u32
      columns ← rest
      give (record { flags = flags; name = name; type_oid = oid; type_modifier = mod_ } ∷ columns)

-- `decodeRelation`, up to the map.
unfoldable pub parse_relation : Parse Relation
unfolding u8 cstr u16 u32 parse_columns
parse_relation = do
  id ← u32
  namespace ← cstr
  name ← cstr
  identity ← u8
  n ← u16
  columns ← parse_columns n
  give (record {
    id = id;
    namespace = namespace;
    name = name;
    replica_identity = identity;
    columns = columns;
  })
