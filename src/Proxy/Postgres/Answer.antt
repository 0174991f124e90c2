-- ===== src/Proxy/Postgres/Answer.antt =====
-- `writeDataRow` and `prepareRowDescription` of proxy/postgres.go: what a client gets for a SELECT
-- that ran on a replica. database/sql and pgproto3 are not under verification: the result of the query
-- is an argument, and a message stands for its encoding. `Columns` and `ColumnTypes` fail only on rows
-- that are closed, which those of a query that has just succeeded are not: their errors have no case.
pub mod Protocol
use dbrwproxy.Prelude.{
  ℕ, zero, suc, ◌+◌, ◌≡◌, refl, Bytes, codes, bytes_eq, Bool, true, false, Option, none, some, List,
  [], ◌∷◌, ◌++◌, map, if◌then◌else◌, length,
}
use dbrwproxy.Prelude.Int.{ℤ, pos, negsuc}
use dbrwproxy.Prelude.Decimal.{itoa}

pub record PgDataType : Type 0 where
  pub data_type_oid : ℕ
  pub data_type_size : ℤ

abbrev data_type : ℕ → ℤ → PgDataType
data_type oid size = record { data_type_oid = oid; data_type_size = size }

unfoldable pub data_type_lookup : List (Bytes × PgDataType)
data_type_lookup =
    (codes "BOOL", data_type 16 (pos 1))
    ∷ (codes "BYTEA", data_type 17 (negsuc 0))
    ∷ (codes "CHAR", data_type 18 (pos 1))
    ∷ (codes "INT8", data_type 20 (pos 8))
    ∷ (codes "INT2", data_type 21 (pos 2))
    ∷ (codes "INT4", data_type 23 (pos 4))
    ∷ (codes "REGPROC", data_type 24 (pos 4))
    ∷ (codes "_ACLITEM", data_type 25 (negsuc 0))
    ∷ (codes "NAME", data_type 25 (negsuc 0))
    ∷ (codes "TEXT", data_type 25 (negsuc 0))
    ∷ (codes "VARCHAR", data_type 25 (negsuc 0))
    ∷ (codes "OID", data_type 26 (pos 4))
    ∷ (codes "TID", data_type 27 (pos 6))
    ∷ (codes "XID", data_type 28 (pos 4))
    ∷ (codes "CID", data_type 29 (pos 4))
    ∷ (codes "JSON", data_type 114 (negsuc 0))
    ∷ (codes "XML", data_type 142 (negsuc 0))
    ∷ (codes "POINT", data_type 600 (pos 16))
    ∷ (codes "FLOAT4", data_type 700 (pos 4))
    ∷ (codes "FLOAT8", data_type 701 (pos 8))
    ∷ []

-- Go maps keyed by strings, as association lists with the newest entry first.
pub lookup {ℓ} : {V : Type ℓ} → Bytes → List (Bytes × V) → Option V
lookup k [] = none
lookup k ((j, v) ∷ m) = if bytes_eq j k then some v else lookup k m

pub record FieldDescription : Type 0 where
  pub name : Bytes
  pub table_oid : ℕ
  pub table_attribute_number : ℕ
  pub data_type_oid : ℕ
  pub data_type_size : ℤ
  pub type_modifier : ℤ
  pub format : ℕ

pub data Message : Type 0 where
  row_description : List FieldDescription → Message
  data_row : List (Option Bytes) → Message
  command_complete : Bytes → Message
  ready_for_query : ℕ → Message

-- What database/sql returns: the columns with the names of their types, the rows up to one that
-- fails to scan, and the error that ends the iteration.
pub record Rows : Type 0 where
  pub columns : List Bytes
  pub type_names : List Bytes
  pub rows : List (List (Option Bytes))
  pub scan_failed : Bool
  pub iteration_failed : Bool

-- The map `columeTypeNames`: a later column of the same name takes the place of an earlier one.
type_name_map : List (Bytes × Bytes) → List Bytes → List Bytes → List (Bytes × Bytes)
type_name_map m [] types = m
type_name_map m (c ∷ cs) [] = m
type_name_map m (c ∷ cs) (t ∷ ts) = type_name_map ((c, t) ∷ m) cs ts

abbrev type_or_bytea : Option PgDataType → PgDataType
type_or_bytea (some t) = t
type_or_bytea none = data_type 17 (negsuc 0)

-- A name that is not in the map reads as the empty string.
abbrev name_or_empty : Option Bytes → Bytes
name_or_empty (some t) = t
name_or_empty none = []

field_description : List (Bytes × Bytes) → Bytes → FieldDescription
unfolding data_type_lookup lookup
field_description m column =
    let t = type_or_bytea (lookup (name_or_empty (lookup column m)) data_type_lookup) in
    record {
      name = column;
      table_oid = 0;
      table_attribute_number = 0;
      data_type_oid = t.data_type_oid;
      data_type_size = t.data_type_size;
      type_modifier = negsuc 0;
      format = 0;
    }

unfoldable pub prepare_row_description : Rows → List FieldDescription
unfolding field_description type_name_map
prepare_row_description r =
    map (field_description (type_name_map [] r.columns r.type_names)) r.columns

-- How `writeDataRow` ended: with nil or with an error.
pub data End : Type 0 where
  fine : End
  error : End

-- The writes: `write_ok k` tells whether the k-th succeeds, and the messages sent are kept.
abbrev Writer : Type 0
Writer = (ℕ → Bool) → List Message → List Message × End

-- One write, and what follows if it succeeds.
abbrev write : Message → Writer → Writer
write m more write_ok sent =
    let rest = more write_ok (sent ++ (m ∷ [])) in
    if write_ok (length sent) then rest else (sent, error)

finish : Rows → Writer
finish r write_ok sent = (sent, if r.iteration_failed then error else fine)

complete : Rows → ℕ → Writer
unfolding finish
complete r count =
    write (command_complete (codes "SELECT " ++ itoa (pos count)))
      (write (ready_for_query b'I') (finish r))

row_loop : Rows → List (List (Option Bytes)) → ℕ → Writer
unfolding complete
row_loop r [] count write_ok sent =
    let done = complete r count write_ok sent in if r.scan_failed then (sent, error) else done
row_loop r (row ∷ rows) count write_ok sent =
    write (data_row row) (row_loop r rows (count + 1)) write_ok sent

-- `none` is a query that failed.
unfoldable pub write_data_row : Option Rows → Writer
unfolding row_loop prepare_row_description
write_data_row none write_ok sent = (sent, error)
write_data_row (some r) write_ok sent =
    write (row_description (prepare_row_description r)) (row_loop r r.rows 0) write_ok sent
