-- ===== src/Mysql/Query/Commands.antt =====
-- mysql/connection.go, mysql/transaction.go and mysql/rows.go: commands whose answers are not relayed.
-- As in `query1`, nothing is interpolated. `finish` of `Rows.Close` ends the watching of a context, which
-- is not modelled, and `flip` belongs to the buffer.
use dbrwproxy.Prelude.{
  ℕ, zero, suc, Bytes, [], Bool, true, false, not, ◌||◌, ◌==◌, if◌then◌else◌, codes,
}
use dbrwproxy.Prelude.Int.{ℤ, pos, negsuc, ltb_ℤ}
use dbrwproxy.Mysql.Errors.{invalid_conn, bad_conn, ok, err, panic}
use dbrwproxy.Mysql.Fields.{byte_at, more_results}
use dbrwproxy.Mysql.Connection.{
  MysqlConn, Outcome, done, stuck, M, and_then, ◌>>=◌, ◌>>◌, lift, pure, modify, cleanup, error,
  clear_result, plain,
}
use dbrwproxy.Mysql.Results.{leave_conn, handle_ok_packet, handle_error_packet}
use dbrwproxy.Mysql.Results.Pairs.{
  read_until_eof, read_columns, read_result_set_header_packet, text_next_result_set,
}
use dbrwproxy.Mysql.Query.{Sending, write_command_packet_str, marked, forgive, assign, new_rows}

-- `writeCommandPacket`: the packet of a command without an argument.
unfoldable pub write_command_packet : Sending → ℕ → M (Unit {0})
unfolding write_command_packet_str
write_command_packet env command = write_command_packet_str env command []

-- `readResultOK`
unfoldable pub read_result_ok : M (Unit {0})
unfolding plain byte_at handle_ok_packet handle_error_packet
read_result_ok = do
  bytes ← plain
  first ← lift (byte_at bytes (pos 0))
  if first == 0 then handle_ok_packet bytes else handle_error_packet bytes

-- `Ping`, with a context that is not cancelled; comPing is 14.
unfoldable pub ping : Sending → M (Unit {0})
unfolding write_command_packet read_result_ok clear_result marked
ping env c =
    let d = clear_result c in
    if c.closed
    then done c (err bad_conn)
    else and_then (marked (write_command_packet env 14 d)) (λ _. read_result_ok)

-- `Close`: an error of the write is returned behind the cleanup; comQuit is 1.
unfoldable pub closed_after : Outcome (Unit {0}) → Outcome (Unit {0})
unfolding cleanup
closed_after (done c r) = done (cleanup c) r
closed_after stuck = stuck

unfoldable pub close_conn : Sending → M (Unit {0})
unfolding write_command_packet closed_after cleanup
close_conn env c =
    if c.closed then done (cleanup c) (ok tt) else closed_after (write_command_packet env 1 c)

-- `ResetSession`
unfoldable pub reset_session : M (Unit {0})
reset_session c =
    if c.closed then done c (err bad_conn) else done (record c { reset = true }) (ok tt)

-- `IsValid`
unfoldable pub is_valid : MysqlConn → Bool
is_valid c = not c.closed

-- The packets of a result set behind its header: the columns and the rows.
skip_result_set : ℕ → ℤ → M (Unit {0})
unfolding read_until_eof
skip_result_set fuel n =
    if ltb_ℤ (pos 0) n then (do read_until_eof fuel; read_until_eof fuel) else pure tt

module _ (in_file : Bytes → M (Unit {0})) where
  -- `discardResults`, for as many result sets as there is fuel.
  unfoldable pub discard_results : ℕ → M (Unit {0})
  unfolding read_result_set_header_packet skip_result_set
  discard_results zero c = stuck
  discard_results (suc fuel) c =
      let rest : M (Unit {0}) = (do
        n ← read_result_set_header_packet in_file
        skip_result_set fuel n
        discard_results fuel) in
      if more_results c.status then rest c else done c (ok tt)

  -- `exec`
  unfoldable pub exec : ℕ → Sending → Bytes → M (Unit {0})
  unfolding clear_result write_command_packet_str marked discard_results
  exec fuel env query c =
      let rest : M (Unit {0}) = (do
        n ← read_result_set_header_packet in_file
        skip_result_set fuel n
        discard_results fuel) in
      and_then (marked (write_command_packet_str env 3 query (clear_result c))) (λ _. rest)

  -- `begin`
  unfoldable pub begin : ℕ → Sending → Bool → M (Unit {0})
  unfolding exec marked
  begin fuel env read_only c =
      let query =
        if read_only then codes "START TRANSACTION READ ONLY" else codes "START TRANSACTION" in
      if c.closed then done c (err bad_conn) else marked (exec fuel env query c)

  -- `Commit` and `Rollback`; `has_conn` is `tx.mc != nil`.
  end_transaction : Bytes → ℕ → Sending → Bool → M (Unit {0})
  unfolding exec
  end_transaction query fuel env has_conn c =
      if not has_conn || c.closed then done c (err invalid_conn) else exec fuel env query c

  unfoldable pub commit : ℕ → Sending → Bool → M (Unit {0})
  unfolding end_transaction
  commit = end_transaction (codes "COMMIT")

  unfoldable pub rollback : ℕ → Sending → Bool → M (Unit {0})
  unfolding end_transaction
  rollback = end_transaction (codes "ROLLBACK")

  read_columns_plain : ℕ → ℤ → M (Unit {0})
  unfolding forgive assign text_next_result_set read_columns
  read_columns_plain fuel n c =
      let none_here = forgive (text_next_result_set in_file fuel (new_rows true c)) in
      let read = assign (read_columns fuel n (new_rows false c)) in
      elim n [ pos zero ↦ none_here | pos (suc k) ↦ read | negsuc k ↦ read ]

  -- `query`, for no arguments.
  unfoldable pub query : ℕ → Sending → Bytes → M (Unit {0})
  unfolding clear_result write_command_packet_str read_result_set_header_packet marked
      read_columns_plain
  query fuel env text c =
      let send : M ℤ = (do
        write_command_packet_str env 3 text
        read_result_set_header_packet in_file) in
      let d = clear_result c in
      if d.closed
      then done d (err bad_conn)
      else and_then (marked (send d)) (read_columns_plain fuel)

  -- `Rows.Close` behind the reading of what is left of the result set.
  drained : ℕ → Outcome (Unit {0}) → Outcome (Unit {0})
  unfolding clear_result discard_results
  drained fuel (done c (ok _)) =
      and_then (discard_results fuel (clear_result c)) (λ _. modify leave_conn)
  drained fuel (done c (err e)) = done (leave_conn c) (err e)
  drained fuel (done c panic) = done c panic
  drained fuel stuck = stuck

  unfoldable pub close_rows : ℕ → M (Unit {0})
  unfolding drained error read_until_eof
  close_rows fuel c =
      let skip : M (Unit {0}) = if c.rows.done then pure tt else read_until_eof fuel in
      let rest : M (Unit {0}) = error >>= λ _ d. drained fuel (skip d) in
      if c.rows.has_conn then rest c else done c (ok tt)
