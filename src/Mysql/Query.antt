-- ===== src/Mysql/Query.antt =====
-- mysql/connection.go: a query whose answer is relayed, and `writeDataRow` of proxy/mysql.go above it.
-- `Query1` has no arguments, so nothing is interpolated.
pub mod Rounds
pub mod Delivery
pub mod Endless
pub mod Answer
pub mod Rows
pub mod Asking
pub mod Complete
pub mod Commands
pub mod Params
pub mod Infile
mod Runs
use dbrwproxy.Prelude.{
  ℕ, zero, suc, ◌+◌, Bytes, List, [], ◌∷◌, ◌++◌, Bool, true, false, Option, none, some, ltb,
  if◌then◌else◌, length,
}
use dbrwproxy.Prelude.Int.{ℤ, pos, negsuc}
use dbrwproxy.Mysql.Errors.{
  MysqlError, invalid_conn, bad_conn, bad_conn_no_write, eof, Result, ok, err, panic,
}
use dbrwproxy.Mysql.Packets.Writing.{Sink, Outcome, Sent, write_packet}
use dbrwproxy.Mysql.Values.{Conversion, Value}
use dbrwproxy.Mysql.Connection as Connection
use dbrwproxy.Mysql.Connection.{
  MysqlField, TextRows, MysqlConn, done, stuck, M, and_then, ◌>>=◌, ◌>>◌, lift, pure, fail, modify,
  cleanup, mark_bad_conn, clear_result,
}
use dbrwproxy.Mysql.Results.Pairs.{
  read_result_set_header_packet1, text_next_result_set1, read_columns1, next1,
}

-- What the environment does with a command: the outcomes of its writes, whether a stale connection
-- is alive, and whether unread bytes keep the buffer busy.
pub record Sending : Type 0 where
  pub net : ℕ → Outcome
  pub alive : Bool
  pub busy : Bool

-- Whether `writePacket` has closed the connection where it returns this error. An error of a
-- cancelation comes with a connection that is closed already.
closes : MysqlError → Bool
closes invalid_conn = true
closes bad_conn = true
closes e = false

after_send : MysqlConn → Option Sent → Connection.Outcome (Unit {0})
unfolding closes cleanup
after_send c none = stuck
after_send c (some (sent, sequence, none)) =
    done
      (record c {
        to_server = c.to_server ++ sent;
        stream = record (c.stream) { sequence = sequence };
      })
      (ok tt)
after_send c (some (sent, sequence, some e)) =
    let d : MysqlConn = record c {
      to_server = c.to_server ++ sent;
      stream = record (c.stream) { sequence = sequence };
    } in
    done (if closes e then cleanup d else d) (err e)

-- Before a write: the sequence starts anew.
abbrev restart : MysqlConn → MysqlConn
restart c = record c { stream = record (c.stream) { sequence = 0 } }

-- The flag goes once a packet is not too large.
abbrev unset_reset : ℕ → MysqlConn → MysqlConn
unset_reset n c = record c { reset = if ltb c.max_allowed_packet n then c.reset else false }

abbrev sink_of : MysqlConn → Sink
sink_of c = record {
  sequence = 0;
  max_allowed_packet = c.max_allowed_packet;
  reset = c.reset;
  canceled = c.stream.canceled;
}

unfoldable pub write_command_packet_str : Sending → ℕ → Bytes → M (Unit {0})
unfolding after_send
write_command_packet_str env command arg c =
    let bytes = 0 ∷ 0 ∷ 0 ∷ 0 ∷ command ∷ arg in
    let sent = write_packet env.net env.alive (sink_of c) bytes in
    if env.busy
    then done (restart c) (err bad_conn_no_write)
    else after_send (unset_reset (length arg + 1) (restart c)) sent

-- rows := new(TextRows), with rows.mc = mc
abbrev new_rows : Bool → MysqlConn → MysqlConn
new_rows finished c = record c { rows = record { has_conn = true; columns = []; done = finished } }

-- `mc.markBadConn` on the error of a computation.
marked {ℓ} : {A : Type ℓ} → Connection.Outcome A → Connection.Outcome A
unfolding mark_bad_conn
marked (done c (ok a)) = done c (ok a)
marked (done c (err e)) = done c (err (mark_bad_conn e))
marked (done c panic) = done c panic
marked stuck = stuck

pub is_eof : MysqlError → Bool
is_eof eof = true
is_eof e = false

-- case nil, io.EOF
forgive : Connection.Outcome (Unit {0}) → Connection.Outcome (Unit {0})
unfolding is_eof
forgive (done c (ok a)) = done c (ok a)
forgive (done c (err e)) = if is_eof e then done c (ok tt) else done c (err e)
forgive (done c panic) = done c panic
forgive stuck = stuck

-- The columns, assigned also where reading them fails.
assign : Connection.Outcome (List MysqlField) → Connection.Outcome (Unit {0})
assign (done c (ok columns)) =
    done (record c { rows = record (c.rows) { columns = columns } }) (ok tt)
assign (done c (err e)) = done (record c { rows = record (c.rows) { columns = [] } }) (err e)
assign (done c panic) = done c panic
assign stuck = stuck

module _ {X : Type 0} (convert : Conversion → Bytes → Option X) where
  -- `for { if rows.Next1(values, p.localConn) == io.EOF { break } }`, for `n` values.
  unfoldable pub rows_loop : ℕ → ℕ → M (Unit {0})
  unfolding is_eof
  rows_loop zero n c = stuck
  rows_loop (suc fuel) n c = elim (next1 convert n c) [
    | done d (ok values) ↦ rows_loop fuel n d
    | done d (err e) ↦ elim (is_eof e) [ true ↦ done d (ok tt) | false ↦ rows_loop fuel n d ]
    | done d panic ↦ done d panic
    | stuck ↦ stuck
  ]

module _ (in_file : Bytes → M (Unit {0})) where
  -- comQuery is 3.
  command_and_header : Sending → Bytes → M ℤ
  unfolding marked write_command_packet_str
  command_and_header env query c =
      let both : M ℤ = (do
        write_command_packet_str env 3 query
        read_result_set_header_packet1 in_file) in
      marked (both c)

  read_columns_into : ℕ → ℤ → M (Unit {0})
  unfolding forgive assign
  read_columns_into fuel (pos zero) c =
      forgive (text_next_result_set1 in_file fuel (new_rows true c))
  read_columns_into fuel (pos (suc n)) c =
      assign (read_columns1 fuel (pos (suc n)) (new_rows false c))
  read_columns_into fuel (negsuc n) c = assign (read_columns1 fuel (negsuc n) (new_rows false c))

  -- `query1`, for no arguments.
  unfoldable pub query1 : ℕ → Sending → Bytes → M (Unit {0})
  unfolding command_and_header read_columns_into
  query1 fuel env query c =
      let rest : M (Unit {0}) = (do n ← command_and_header env query; read_columns_into fuel n) in
      let d = clear_result c in if d.closed then done d (err bad_conn) else rest d

  module _ {X : Type 0} (convert : Conversion → Bytes → Option X) where
    -- `writeDataRow` of proxy/mysql.go.
    unfoldable pub write_data_row : ℕ → Sending → Bytes → M (Unit {0})
    unfolding query1 rows_loop
    write_data_row fuel env query = do
      query1 fuel env query
      λ c. rows_loop convert fuel (length c.rows.columns) c
