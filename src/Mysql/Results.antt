-- ===== src/Mysql/Results.antt =====
-- mysql/packets.go and mysql/rows.go: reading the answer to a query, packet by packet.
-- The functions come in pairs, one that reads by `readPacket` and one, with a 1 in its name, that
-- reads by `readPacket1` and so relays to a client. Both are the same function of how to read.
-- `handleInFileRequest`, which answers LOAD DATA, is an argument here and stands in Query/Infile.
pub mod Pairs
pub mod Relaying
use dbrwproxy.Prelude.{
  ℕ, zero, suc, ◌+◌, ◌*◌, ◌/◌, ◌%◌, Bytes, List, [], ◌∷◌, ◌++◌, Bool, true, false, not, ◌&&◌, ◌||◌,
  Option, none, some, ltb, leb, ◌==◌, if◌then◌else◌, length, drop,
}
use dbrwproxy.Prelude.Int.{ℤ, pos, negsuc, ltb_ℤ}
use dbrwproxy.Mysql.Errors.{MysqlError, malform_pkt, eof, message, Result, ok, err, panic}
use dbrwproxy.Mysql.LengthEncoded.{read_length_encoded_integer, to_int}
use dbrwproxy.Mysql.Fields.{
  byte_at, uint_at, slice_from, read_status, more_results, ends_columns, error_of, ok_packet,
  parse_column,
}
use dbrwproxy.Mysql.Values.{Conversion, Value, decode_values}
use dbrwproxy.Mysql.Connection.{
  MysqlField, TextRows, MysqlConn, Outcome, done, stuck, M, and_then, ◌>>=◌, ◌>>◌, lift, pure, fail,
  modify, shut_down, error, clear_result, plain, relaying,
}

answer_error {ℓ} : {A : Type ℓ} → Result (MysqlError × Bool) → M A
answer_error (ok (e, true)) = shut_down e
answer_error (ok (e, false)) = fail e
answer_error (err e) = fail e
answer_error panic = lift panic

unfoldable pub handle_error_packet {ℓ} : {A : Type ℓ} → Bytes → M A
unfolding answer_error error_of
handle_error_packet bytes c = answer_error (error_of c.settings.reject_read_only bytes) c

abbrev set_last : ℤ → List ℤ → List ℤ
set_last v [] = []
set_last v (x ∷ []) = v ∷ []
set_last v (x ∷ y ∷ xs) = x ∷ set_last v (y ∷ xs)

abbrev store_ok : ℤ × ℤ × ℕ → MysqlConn → MysqlConn
store_ok (rows, id, status) c = record c {
  affected_rows = set_last rows c.affected_rows;
  insert_ids = set_last id c.insert_ids;
  status = status;
}

unfoldable pub handle_ok_packet : Bytes → M (Unit {0})
unfolding ok_packet
handle_ok_packet bytes = do r ← lift (ok_packet bytes); modify (store_ok r)

abbrev pub append_result : MysqlConn → MysqlConn
append_result c = record c {
  affected_rows = c.affected_rows ++ (pos 0 ∷ []);
  insert_ids = c.insert_ids ++ (pos 0 ∷ []);
}

abbrev pub set_rows : TextRows → MysqlConn → MysqlConn
set_rows r c = record c { rows = r }

abbrev set_status : ℕ → MysqlConn → MysqlConn
set_status status c = record c { status = status }

-- rows.HasNextResultSet()
abbrev pub has_next : MysqlConn → Bool
has_next c = c.rows.has_conn && more_results c.status

-- rows.mc = nil
abbrev pub leave_conn : MysqlConn → MysqlConn
leave_conn c = set_rows (record (c.rows) { has_conn = false }) c

abbrev set_done : MysqlConn → MysqlConn
set_done c = set_rows (record (c.rows) { done = true }) c

abbrev reset_rows : MysqlConn → MysqlConn
reset_rows c = set_rows (record (c.rows) { columns = []; done = false }) c

abbrev set_columns : List MysqlField → MysqlConn → MysqlConn
set_columns columns c = set_rows (record (c.rows) { columns = columns }) c

-- rows.mc = nil, unless another result set follows
abbrev leave_unless_next : MysqlConn → MysqlConn
leave_unless_next c = if has_next c then c else leave_conn c

-- rows.rs.columns, err = …
assign_columns : Outcome (List MysqlField) → Outcome (Unit {0})
assign_columns (done c (ok columns)) = done (set_columns columns c) (ok tt)
assign_columns (done c (err e)) = done (set_columns [] c) (err e)
assign_columns (done c panic) = done c panic
assign_columns stuck = stuck

module _ (read : M Bytes) where
  unfoldable pub until_eof : ℕ → M (Unit {0})
  unfolding handle_error_packet byte_at read_status
  until_eof zero = λ c. stuck
  until_eof (suc fuel) = do
    bytes ← read
    first ← lift (byte_at bytes (pos 0))
    let more = until_eof fuel
    if first == 0xff
        then handle_error_packet bytes
        else if first == 0xfe
        then (if length bytes == 5
            then (do status ← lift (read_status (drop 3 bytes)); modify (set_status status))
            else pure tt)
        else more

  -- The errors that the loop over the columns makes on the spot.
  unfoldable pub columns_loop : ℕ → ℕ → ℕ → List MysqlField → Bool → M (List MysqlField)
  unfolding byte_at parse_column
  columns_loop zero count i columns alias = λ c. stuck
  columns_loop (suc fuel) count i columns alias = do
    bytes ← read
    first ← lift (byte_at bytes (pos 0))
    let more = (do
      column ← lift (parse_column alias (ltb i count) bytes)
      columns_loop fuel count (i + 1) (columns ++ (column ∷ [])) alias)
    if ends_columns bytes first
        then (if i == count then pure columns else fail (message []))
        else more

  -- make([]mysqlField, count) panics on a negative count.
  unfoldable pub columns_of : ℕ → ℤ → M (List MysqlField)
  unfolding columns_loop
  columns_of fuel (pos count) c = columns_loop fuel count 0 [] c.settings.columns_with_alias c
  columns_of fuel (negsuc n) c = done c panic

  module _ (in_file : Bytes → M (Unit {0})) where
    -- The packet that begins an answer: the number of columns.
    unfoldable pub header_of : M ℤ
    unfolding handle_ok_packet handle_error_packet byte_at read_length_encoded_integer
    header_of = do
      modify append_result
      bytes ← read
      first ← lift (byte_at bytes (pos 0))
      if first == 0
          then (do handle_ok_packet bytes; pure (pos 0))
          else if first == 0xff
          then handle_error_packet bytes
          else if first == 0xfb
          then (do in_file (drop 1 bytes); pure (pos 0))
          else (do
            (num, _, n) ← lift (read_length_encoded_integer bytes)
            if n == length bytes then pure (to_int num) else fail malform_pkt)

    -- `nextResultSet` behind its look at `rows.mc` and at the connection.
    another_set : M ℤ
    unfolding header_of
    another_set c = if has_next c then header_of (reset_rows c) else done (leave_conn c) (err eof)

    unfoldable pub next_set : ℕ → M ℤ
    unfolding another_set until_eof error
    next_set fuel c =
        let skip : M (Unit {0}) = (do until_eof fuel; modify set_done) in
        let rest : M ℤ = (do error; if c.rows.done then pure tt else skip; another_set) in
        if c.rows.has_conn then rest c else done c (err eof)

    -- The result sets that are left, each at most.
    unfoldable pub not_empty_set : ℕ → M ℤ
    unfolding next_set
    not_empty_set zero = λ c. stuck
    not_empty_set (suc fuel) = do
      n ← next_set fuel
      let more = (do modify set_done; not_empty_set fuel)
      if ltb_ℤ (pos 0) n then pure n else more

    read_set_columns : ℕ → ℤ → M (Unit {0})
    unfolding columns_of assign_columns
    read_set_columns fuel n c = assign_columns (columns_of fuel n c)

    unfoldable pub next_result_set_of : ℕ → M (Unit {0})
    unfolding not_empty_set read_set_columns
    next_result_set_of fuel = do n ← not_empty_set fuel; read_set_columns fuel n

  module _ {X : Type 0} (convert : Conversion → Bytes → Option X) where
    -- A packet among the rows.
    row_packet : ℕ → Bytes → ℕ → M (List (Value X))
    unfolding handle_error_packet read_status decode_values
    row_packet n bytes first c =
        let ended = (do
          status ← lift (read_status (drop 3 bytes))
          modify (set_status status)
          modify set_done
          modify leave_unless_next
          fail eof) in
        let refused = (do modify leave_conn; handle_error_packet bytes) in
        if first == 0xfe && length bytes == 5
        then ended c
        else if first == 0xff
        then refused c
        else done c (decode_values convert c.settings.parse_time c.rows.columns bytes n 0 (pos 0))

    unfoldable pub row_of : ℕ → M (List (Value X))
    unfolding row_packet byte_at
    row_of n c =
        let rest : M (List (Value X)) = (do
          bytes ← read
          first ← lift (byte_at bytes (pos 0))
          row_packet n bytes first) in
        if c.rows.done then done c (err eof) else rest c

    -- `Next`: the values of a row; `n` is the length of `dest`.
    unfoldable pub next_row : ℕ → M (List (Value X))
    unfolding row_of error
    next_row n c =
        let rest : M (List (Value X)) = (do error; row_of n) in
        if c.rows.has_conn then rest c else done c (err eof)
