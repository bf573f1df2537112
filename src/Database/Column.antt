-- ===== src/Database/Column.antt =====
-- dblib/db.cpp, the columns of a result: where the library writes a value, and how it is read. The
-- union is four bytes of a little-endian host, which `short` and `int` share.
use mathlib.Core.List.{List}
use netframework.Base.{
  ℕ, ◌+◌, ◌-◌, ◌^◌, ◌%◌, ltb, leb, ◌==◌, Option, none, some, [], ◌∷◌, ◌++◌, if◌then◌else◌, length,
  drop, Bytes, equal, Result, ok, err, undefined, ◌>>=◌, ℤ, pos, negsuc,
}

-- `enum_field_types`, as far as the switch names it.
pub data FieldType : Type 0 where
  mysql_type_decimal mysql_type_tiny mysql_type_short mysql_type_long mysql_type_float : FieldType
  mysql_type_double mysql_type_null mysql_type_timestamp mysql_type_longlong mysql_type_int24 :
      FieldType
  mysql_type_date mysql_type_time mysql_type_datetime mysql_type_year mysql_type_newdate : FieldType
  mysql_type_bit mysql_type_timestamp2 mysql_type_datetime2 mysql_type_time2 mysql_type_json :
      FieldType
  mysql_type_newdecimal mysql_type_enum mysql_type_set mysql_type_tiny_blob : FieldType
  mysql_type_medium_blob mysql_type_long_blob mysql_type_blob mysql_type_varchar : FieldType
  mysql_type_var_string mysql_type_string mysql_type_geometry : FieldType

-- `MYSQL_FIELD`
pub record Field : Type 0 where
  pub name : Bytes
  pub field_type : FieldType
  pub length : ℕ

-- `BindData` with the pointer `buffer` of its binding: no buffer, the bits of the union, or an array
-- of one byte more than the length of the field, of which the beginning is given a value.
pub data Storage : Type 0 where
  no_buffer : Storage
  shortno intno : ℕ → Storage
  str : ℕ → Bytes → Storage

pub record Column : Type 0 where
  pub buffer_type : FieldType
  pub storage : Storage

-- `resize` sets it to zero, and zero is `MYSQL_TYPE_DECIMAL`.
abbrev pub new_column : Column
new_column = record { buffer_type = mysql_type_decimal; storage = no_buffer }

-- The switch, for a column that has no buffer yet.
unfoldable pub storage_of : FieldType → ℕ → Storage
storage_of mysql_type_short n = shortno 0
storage_of mysql_type_long n = intno 0
storage_of mysql_type_varchar n = str n []
storage_of mysql_type_var_string n = str n []
storage_of mysql_type_string n = str n []
storage_of _ n = no_buffer

unfoldable pub column_of : Field → Column → Column
unfolding storage_of
column_of field column = record {
  buffer_type = field.field_type;
  storage = storage_of field.field_type field.length;
}

-- What the library writes for a column: nothing, where the value is NULL; the bits of a number; or
-- bytes from the beginning of the array.
pub data Written : Type 0 where
  untouched : Written
  short_bits long_bits : ℕ → Written
  chars : Bytes → Written

-- A write outside the buffer is undefined.
unfoldable pub store_at : Written → Storage → Result Storage
store_at untouched storage = ok storage
store_at (short_bits v) (shortno w) = ok (shortno (w - w % 2 ^ 16 + v % 2 ^ 16))
store_at (long_bits v) (intno w) = ok (intno (v % 2 ^ 32))
store_at (chars bytes) (str n content) =
    if leb (length bytes) (n + 1)
    then ok (str n (bytes ++ drop (length bytes) content))
    else err undefined
store_at _ storage = err undefined

unfoldable pub store : Written → Column → Result Column
unfolding store_at
store written column =
    store_at written column.storage >>= λ storage. ok record column { storage = storage }

-- The value of 32 bits as an `int`.
unfoldable pub signed : ℕ → ℤ
signed w = if ltb w (2 ^ 31) then pos w else negsuc (2 ^ 32 - 1 - w)

-- `bindData[i].intno`; of a text it is a part of an address.
unfoldable pub read_int_at : Storage → Result ℤ
unfolding signed
read_int_at no_buffer = ok (pos 0)
read_int_at (shortno w) = ok (signed w)
read_int_at (intno w) = ok (signed w)
read_int_at (str n content) = err undefined

unfoldable pub read_int : Column → Result ℤ
unfolding read_int_at
read_int column = read_int_at column.storage

-- A text is read to its zero byte; a byte without a value is undefined.
unfoldable pub until_zero : Bytes → Result Bytes
until_zero [] = err undefined
until_zero (c ∷ bytes) =
    let rest = until_zero bytes in if c == 0 then ok [] else (rest >>= λ text. ok (c ∷ text))

-- `bindData[i].str`, which is no pointer to a text in a column of another type.
unfoldable pub read_str_at : Storage → Result Bytes
unfolding until_zero
read_str_at (str n content) = until_zero content
read_str_at storage = err undefined

unfoldable pub read_str : Column → Result Bytes
unfolding read_str_at
read_str column = read_str_at column.storage

-- `columnData[name] = i`
unfoldable pub assign : Bytes → ℕ → List (Bytes × ℕ) → List (Bytes × ℕ)
unfolding equal
assign name i [] = (name, i) ∷ []
assign name i ((key, j) ∷ rest) =
    let later = assign name i rest in if equal key name then (key, i) ∷ rest else (key, j) ∷ later

-- `columnData.find`
unfoldable pub find_column : Bytes → List (Bytes × ℕ) → Option ℕ
unfolding equal
find_column name [] = none
find_column name ((key, i) ∷ rest) =
    let later = find_column name rest in if equal key name then some i else later
