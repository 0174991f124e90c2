-- ===== src/Mysql/Connection.antt =====
-- mysql/connection.go: the state of a connection while it answers a query, and computations on it.
-- `dstConn`, the client that an answer is relayed to, is the list of the bytes written to it. The
-- fields of `TextRows` stand here too: a query has one, which the reading of its answer changes.
pub mod Delivery
use dbrwproxy.Prelude.{
  ℕ, ◌+◌, ◌*◌, ◌/◌, ◌%◌, Bytes, List, [], ◌∷◌, ◌++◌, Bool, true, false, Option, none, some, ltb,
  ◌==◌, if◌then◌else◌, length, drop,
}
use dbrwproxy.Prelude.Int.{ℤ}
use dbrwproxy.Mysql.Errors.{
  MysqlError, Result, ok, err, panic, invalid_conn, bad_conn, bad_conn_no_write,
}
use dbrwproxy.Mysql.Packets.{
  Stream, PacketRead, packet, refused, dropped, read_packet, read_packet1, read_error,
}

-- `mysqlField`
pub record MysqlField : Type 0 where
  pub table_name : Bytes
  pub name : Bytes
  pub field_length : ℕ
  pub flags : ℕ
  pub field_type : ℕ
  pub decimals : ℕ
  pub char_set : ℕ

-- `has_conn` is `rows.mc != nil`.
pub record TextRows : Type 0 where
  pub has_conn : Bool
  pub columns : List MysqlField
  pub done : Bool

-- What the code reads of `mc.cfg`, and `mc.parseTime`.
pub record Settings : Type 0 where
  pub reject_read_only : Bool
  pub columns_with_alias : Bool
  pub parse_time : Bool

pub record MysqlConn : Type 0 where
  pub stream : Stream
  pub closed : Bool
  pub status : ℕ
  pub affected_rows : List ℤ
  pub insert_ids : List ℤ
  pub settings : Settings
  pub rows : TextRows
  pub max_allowed_packet : ℕ
  pub reset : Bool
  pub to_server : Bytes
  pub to_client : Bytes

-- What a computation comes to; `stuck` is a model loop that ran out of fuel.
pub data Outcome {ℓ} (A : Type ℓ) : Type ℓ where
  done : MysqlConn → Result A → Outcome A
  stuck : Outcome A

abbrev pub M {ℓ} : Type ℓ → Type ℓ
M A = MysqlConn → Outcome A

-- The rest of a function behind a call: an error returns at once.
abbrev pub and_then {ℓ κ} : {A : Type ℓ} {B : Type κ} → Outcome A → (A → M B) → Outcome B
and_then (done c (ok a)) f = f a c
and_then (done c (err e)) f = done c (err e)
and_then (done c panic) f = done c panic
and_then stuck f = stuck

infixl 5 ◌>>=◌ ◌>>◌
abbrev pub ◌>>=◌ {ℓ κ} : {A : Type ℓ} {B : Type κ} → M A → (A → M B) → M B
◌>>=◌ m f c = and_then (m c) f

abbrev pub ◌>>◌ {ℓ} : {B : Type ℓ} → M (Unit {0}) → M B → M B
m >> k = m >>= λ _. k

abbrev pub lift {ℓ} : {A : Type ℓ} → Result A → M A
lift r c = done c r

abbrev pub pure {ℓ} : {A : Type ℓ} → A → M A
pure a = lift (ok a)

abbrev pub fail {ℓ} : {A : Type ℓ} → MysqlError → M A
fail e = lift (err e)

-- A change of the state.
abbrev pub modify : (MysqlConn → MysqlConn) → M (Unit {0})
modify f c = done (f c) (ok tt)

-- `cleanup`: it is idempotent. What `Close` sends to the server before it does not matter here.
unfoldable pub cleanup : MysqlConn → MysqlConn
cleanup c = if c.closed then c else record c { closed = true; affected_rows = []; insert_ids = [] }

-- An error behind `mc.Close()`.
abbrev pub shut_down {ℓ} : {A : Type ℓ} → MysqlError → M A
shut_down e c = done (cleanup c) (err e)

-- `mc.error()`
unfoldable pub error : M (Unit {0})
error c = done c (if c.closed then err (read_error c.stream.canceled) else ok tt)

unfoldable pub mark_bad_conn : MysqlError → MysqlError
mark_bad_conn bad_conn_no_write = bad_conn
mark_bad_conn e = e

unfoldable pub clear_result : MysqlConn → MysqlConn
clear_result c = record c { affected_rows = []; insert_ids = [] }

-- What reading a packet leaves of the connection.
unfoldable pub taken : MysqlConn → PacketRead → Outcome Bytes
unfolding cleanup
taken c (packet s bytes) = done (record c { stream = s }) (ok bytes)
taken c (refused s e) = done (record c { stream = s }) (err e)
taken c (dropped e) = done (cleanup c) (err e)

taken_plain : MysqlConn → Option PacketRead → Outcome Bytes
unfolding taken
taken_plain c none = stuck
taken_plain c (some p) = taken c p

unfoldable pub taken_relayed : MysqlConn → Option (PacketRead × Bytes) → Outcome Bytes
unfolding taken
taken_relayed c none = stuck
taken_relayed c (some (p, written)) = taken (record c { to_client = c.to_client ++ written }) p

-- `mc.readPacket()` and `mc.readPacket1(dstConn)`
unfoldable pub plain : M Bytes
unfolding taken_plain
plain c = taken_plain c (read_packet c.stream)

unfoldable pub relaying : M Bytes
unfolding taken_relayed
relaying c = taken_relayed c (read_packet1 c.stream)
