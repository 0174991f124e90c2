-- ===== src/Mysql/Columns.antt =====
-- mysql/rows.go and mysql/fields.go: what the columns of a result are called, and the names of their
-- types. A name that `Columns` has kept from an earlier call is not modelled.
use dbrwproxy.Prelude.{
  ℕ, ◌%◌, Bytes, List, [], ◌∷◌, ◌++◌, Bool, ◌&&◌, ◌||◌, Option, none, some, ltb, ◌==◌,
  if◌then◌else◌, map, length, codes,
}
use dbrwproxy.Prelude.Int.{ℤ, pos, negsuc, int_add}
use dbrwproxy.Mysql.Connection.{MysqlField, MysqlConn}
use dbrwproxy.Mysql.Fields.{is_unsigned}

column_name : Bool → MysqlField → Bytes
column_name with_table f =
    if with_table && ltb 0 (length f.table_name)
    then f.table_name ++ (46 ∷ []) ++ f.name
    else f.name

-- `Columns`
unfoldable pub column_names : MysqlConn → List Bytes
unfolding column_name
column_names c = map (column_name (c.rows.has_conn && c.settings.columns_with_alias)) c.rows.columns

-- mf.charSet == binaryCollationID
abbrev is_binary : MysqlField → Bool
is_binary f = f.char_set == 63

-- A name of its own where a condition on the column holds.
choice : Bool → Bytes → Bytes → Bytes
choice t name other = if t then name else other

-- The names by the code of a type; `none` is the default of the switch.
type_table : MysqlField → List (ℕ × Bytes)
unfolding choice
type_table f =
    let unsigned = is_unsigned f.flags in
    let binary = is_binary f in
    (16, codes "BIT")
    ∷ (252, choice binary (codes "BLOB") (codes "TEXT"))
    ∷ (10, codes "DATE")
    ∷ (12, codes "DATETIME")
    ∷ (0, codes "DECIMAL")
    ∷ (5, codes "DOUBLE")
    ∷ (247, codes "ENUM")
    ∷ (4, codes "FLOAT")
    ∷ (255, codes "GEOMETRY")
    ∷ (9, choice unsigned (codes "UNSIGNED MEDIUMINT") (codes "MEDIUMINT"))
    ∷ (245, codes "JSON")
    ∷ (3, choice unsigned (codes "UNSIGNED INT") (codes "INT"))
    ∷ (251, choice binary (codes "LONGBLOB") (codes "LONGTEXT"))
    ∷ (8, choice unsigned (codes "UNSIGNED BIGINT") (codes "BIGINT"))
    ∷ (250, choice binary (codes "MEDIUMBLOB") (codes "MEDIUMTEXT"))
    ∷ (14, codes "DATE")
    ∷ (246, codes "DECIMAL")
    ∷ (6, codes "NULL")
    ∷ (248, codes "SET")
    ∷ (2, choice unsigned (codes "UNSIGNED SMALLINT") (codes "SMALLINT"))
    ∷ (254, choice binary (codes "BINARY") (codes "CHAR"))
    ∷ (11, codes "TIME")
    ∷ (7, codes "TIMESTAMP")
    ∷ (1, choice unsigned (codes "UNSIGNED TINYINT") (codes "TINYINT"))
    ∷ (249, choice binary (codes "TINYBLOB") (codes "TINYTEXT"))
    ∷ (15, choice binary (codes "VARBINARY") (codes "VARCHAR"))
    ∷ (253, choice binary (codes "VARBINARY") (codes "VARCHAR"))
    ∷ (13, codes "YEAR")
    ∷ []

name_in : List (ℕ × Bytes) → ℕ → Bytes
name_in [] t = []
name_in ((u, name) ∷ names) t = if u == t then name else name_in names t

-- `typeDatabaseName`
unfoldable pub type_database_name : MysqlField → Bytes
unfolding type_table name_in
type_database_name f = name_in (type_table f) f.field_type

-- `ColumnTypeNullable`: the flag of NOT NULL is the lowest.
unfoldable pub column_nullable : MysqlField → Bool
column_nullable f = f.flags % 2 == 0

-- `ColumnTypePrecisionScale`: `none` is `0, 0, false`, and math.MaxInt64 is 2 ^ 63 - 1.
unfoldable pub precision_scale : MysqlField → Option (ℤ × ℤ)
unfolding int_add
precision_scale f =
    let t = f.field_type in
    let largest = pos 9223372036854775807 in
    if t == 0 || t == 246
    then some (
      int_add (pos f.field_length) (if ltb 0 f.decimals then negsuc 1 else negsuc 0),
      pos f.decimals,
    )
    else if t == 7 || t == 12 || t == 11
    then some (pos f.decimals, pos f.decimals)
    else if t == 4 || t == 5
    then some (largest, if f.decimals == 31 then largest else pos f.decimals)
    else none
