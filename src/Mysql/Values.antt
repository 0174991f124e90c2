-- ===== src/Mysql/Values.antt =====
-- mysql/packets.go: the values of a row in the text protocol, in `readRow` and `readRow1`.
-- The conversions of strconv, and `parseDateTime`, are one parameter; `X` is the type of what they
-- give. Their errors are never io.EOF.
use dbrwproxy.Prelude.{
  ℕ, zero, suc, ◌+◌, Bytes, List, [], ◌∷◌, Bool, true, false, ◌||◌, Option, none, some, ◌==◌,
  if◌then◌else◌, get_elem?,
}
use dbrwproxy.Prelude.Int.{ℤ, int_add}
use dbrwproxy.Mysql.Errors.{message, Result, ok, err, panic, ◌>>=◌}
use dbrwproxy.Mysql.LengthEncoded.{read_length_encoded_string}
use dbrwproxy.Mysql.Connection.{MysqlField}
use dbrwproxy.Mysql.Fields.{slice_from, is_unsigned}

pub data Conversion : Type 0 where
  date_time int32 int64 uint64 float32 float64 : Conversion

pub data Value (X : Type 0) : Type 0 where
  null : Value X
  bytes : Bytes → Value X
  converted : X → Value X

-- The conversion of a column's values; `none` takes them as they are.
unfoldable pub conversion_of : Bool → MysqlField → Option Conversion
conversion_of parse_time f =
    let t = f.field_type in
    if t == 7 || t == 12 || t == 10 || t == 14
    then (if parse_time then some date_time else none)
    else if t == 1 || t == 2 || t == 9 || t == 13 || t == 3
    then some int32
    else if t == 8
    then some (if is_unsigned f.flags then uint64 else int64)
    else if t == 4
    then some float32
    else if t == 5
    then some float64
    else none

module _ {X : Type 0} (convert : Conversion → Bytes → Option X) where
  or_error : Option X → Result (Value X)
  or_error none = err (message [])
  or_error (some x) = ok (converted x)

  convert_value : Option Conversion → Bytes → Result (Value X)
  unfolding or_error
  convert_value none buf = ok (bytes buf)
  convert_value (some how) buf = or_error (convert how buf)

  value_of : Bool → Option MysqlField → Bool → Bytes → Result (Value X)
  unfolding convert_value conversion_of
  value_of parse_time column true buf = ok null
  value_of parse_time none false buf = panic
  value_of parse_time (some column) false buf = convert_value (conversion_of parse_time column) buf

  -- The loop over `dest`: the values that are left, the index of the next one, and its position.
  unfoldable pub decode_values :
      Bool → List MysqlField → Bytes → ℕ → ℕ → ℤ → Result (List (Value X))
  unfolding value_of
  decode_values parse_time columns row zero i at = ok []
  decode_values parse_time columns row (suc n) i at = do
    rest ← slice_from row at
    (buf, is_null, width) ← read_length_encoded_string rest
    value ← value_of parse_time (get_elem? columns i) is_null buf
    values ← decode_values parse_time columns row n (i + 1) (int_add at width)
    ok (value ∷ values)
