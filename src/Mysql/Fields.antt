-- ===== src/Mysql/Fields.antt =====
-- mysql/packets.go: what the packets of an answer hold, as functions of their bytes.
-- A slice has no spare capacity, so an index or a slice expression beyond its length panics.
use dbrwproxy.Prelude.{
  ℕ, ◌+◌, ◌/◌, ◌%◌, Bytes, [], Bool, true, false, ◌&&◌, ◌||◌, Option, none, some, leb, ◌==◌,
  if◌then◌else◌, length, drop, take, get_elem?,
}
use dbrwproxy.Prelude.Int.{ℤ, pos, negsuc, int_add}
use dbrwproxy.Mysql.Errors.{MysqlError, bad_conn, malform_pkt, server, Result, ok, panic, ◌>>=◌}
use dbrwproxy.Mysql.Integers.{from_bytes}
use dbrwproxy.Mysql.LengthEncoded.{
  read_length_encoded_integer, read_length_encoded_string, skip_length_encoded_string, to_int,
}
use dbrwproxy.Mysql.Connection.{MysqlField}

-- data[n:]
unfoldable pub slice_from : Bytes → ℤ → Result Bytes
slice_from bytes (pos n) = if leb n (length bytes) then ok (drop n bytes) else panic
slice_from bytes (negsuc n) = panic

abbrev pub or_panic {ℓ} : {A : Type ℓ} → Option A → Result A
or_panic none = panic
or_panic (some a) = ok a

-- data[n]
unfoldable pub byte_at : Bytes → ℤ → Result ℕ
byte_at bytes (pos n) = or_panic (get_elem? bytes n)
byte_at bytes (negsuc n) = panic

-- binary.LittleEndian on data[n : n+k]
unfoldable pub uint_at : ℕ → Bytes → ℤ → Result ℕ
unfolding slice_from
uint_at k bytes n = do rest ← slice_from bytes n; or_panic (from_bytes k rest)

-- `readStatus`
unfoldable pub read_status : Bytes → Result ℕ
unfolding uint_at
read_status bytes = uint_at 2 bytes (pos 0)

-- status & statusMoreResultsExists != 0
abbrev pub more_results : ℕ → Bool
more_results status = status / 8 % 2 == 1

-- flags & flagUnsigned != 0
abbrev pub is_unsigned : ℕ → Bool
is_unsigned flags = flags / 32 % 2 == 1

-- The end of a list of packets, for `readColumns`.
abbrev pub ends_columns : Bytes → ℕ → Bool
ends_columns bytes first = first == 0xfe && (length bytes == 5 || length bytes == 1)

-- The error of an error packet behind its number, which is `errno`.
server_error : ℕ → Bytes → Result MysqlError
unfolding byte_at slice_from
server_error errno bytes = do
  mark ← byte_at bytes (pos 3)
  state ← slice_from bytes (pos (if mark == 0x23 then 4 else 3))
  text ← slice_from bytes (pos (if mark == 0x23 then 9 else 3))
  ok (server errno (if mark == 0x23 then take 5 state else []) text)

-- What `handleErrorPacket` makes of a packet: the error, and whether it closes the connection.
unfoldable pub error_of : Bool → Bytes → Result (MysqlError × Bool)
unfolding byte_at uint_at server_error
error_of reject_read_only bytes = do
  first ← byte_at bytes (pos 0)
  if first == 0xff
      then (do
        errno ← uint_at 2 bytes (pos 1)
        if (errno == 1792 || errno == 1290) && reject_read_only
            then ok (bad_conn, true)
            else (do e ← server_error errno bytes; ok (e, false)))
      else ok (malform_pkt, false)

-- `handleOkPacket`: the affected rows, the insert id and the status.
unfoldable pub ok_packet : Bytes → Result (ℤ × ℤ × ℕ)
unfolding slice_from read_status
ok_packet bytes = do
  counts ← slice_from bytes (pos 1)
  (affected_rows, _, n) ← read_length_encoded_integer counts
  ids ← slice_from bytes (pos (1 + n))
  (insert_id, _, m) ← read_length_encoded_integer ids
  rest ← slice_from bytes (pos (1 + n + m))
  status ← read_status rest
  ok (to_int affected_rows, to_int insert_id, status)

-- The strings of a column definition: each from `at` on, with the position behind it.
skip_at : Bytes → ℤ → Result ℤ
unfolding slice_from
skip_at bytes at = do
  rest ← slice_from bytes at
  n ← skip_length_encoded_string rest
  ok (int_add at n)

string_at : Bytes → ℤ → Result (Bytes × Bool × ℤ)
unfolding slice_from
string_at bytes at = do
  rest ← slice_from bytes at
  (s, is_null, n) ← read_length_encoded_string rest
  ok (s, is_null, int_add at n)

-- columns[i] with i beyond `count` panics.
abbrev inside : Bool → Result (Unit {0})
inside true = ok tt
inside false = panic

table_name_at : Bool → Bool → Bytes → ℤ → Result (Bytes × ℤ)
unfolding skip_at string_at
table_name_at true in_range bytes at = do
  (s, _, next) ← string_at bytes at
  _ ← inside in_range
  ok (s, next)
table_name_at false in_range bytes at = do next ← skip_at bytes at; ok ([], next)

-- A column definition; `in_range` tells whether columns[i] exists.
unfoldable pub parse_column : Bool → Bool → Bytes → Result MysqlField
unfolding skip_at string_at table_name_at byte_at uint_at
parse_column columns_with_alias in_range bytes = do
  catalog ← skip_length_encoded_string bytes
  database ← skip_at bytes catalog
  (table_name, table) ← table_name_at columns_with_alias in_range bytes database
  original_table ← skip_at bytes table
  (name, _, behind_name) ← string_at bytes original_table
  _ ← inside in_range
  original_name ← skip_at bytes behind_name
  let at = int_add original_name (pos 1)
  char_set ← byte_at bytes at
  field_length ← uint_at 4 bytes (int_add at (pos 2))
  field_type ← byte_at bytes (int_add at (pos 6))
  flags ← uint_at 2 bytes (int_add at (pos 7))
  decimals ← byte_at bytes (int_add at (pos 9))
  ok (record {
    table_name = table_name;
    name = name;
    field_length = field_length;
    flags = flags;
    field_type = field_type;
    decimals = decimals;
    char_set = char_set;
  })
