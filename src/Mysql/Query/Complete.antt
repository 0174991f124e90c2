-- ===== src/Mysql/Query/Complete.antt =====
-- `writeDataRow` of proxy/mysql.go on the whole answer of a server to a SELECT.
use dbrwproxy.Prelude.{
  ℕ, ◌≡◌, ◌<◌, sym, ap, subst, ◌∙◌, Bytes, List, [], ◌∷◌, ◌++◌, Bool, true, false, Option, arith,
  length, inl, inr, All,
}
use dbrwproxy.Mysql.Errors.{ok}
use dbrwproxy.Mysql.Packets.Joining.{stream}
use dbrwproxy.Mysql.Values.{Conversion}
use dbrwproxy.Mysql.Fields.{more_results, read_status}
use dbrwproxy.Mysql.Connection.{MysqlConn, MysqlField, and_then, done}
use dbrwproxy.Mysql.Query.{Sending, rows_loop, write_data_row}
use dbrwproxy.Mysql.Query.Rounds.{Behind, Served}
use dbrwproxy.Mysql.Query.Delivery.{no_file, write_data_row-Served}
use dbrwproxy.Mysql.Query.Answer.{next_sequence, sent, last_sequence}
use dbrwproxy.Mysql.Query.Rows.{IsRow, rows_end, rows_sent}
use dbrwproxy.Mysql.Query.Asking.{
  Sends, Answer, definitions_sent, last_payload, answer_bytes, IsDefined, query1_answered,
}

-- On success, and with the connection open, everything that was read has been sent.
done_end :
    (c d : MysqlConn)
    → d.closed ≡ false
    → Behind c d
    → c.to_client ++ c.stream.incoming ≡ d.to_client ++ d.stream.incoming
done_end c d stays (front, inl level) = level
done_end c d stays (front, inr shut) =
    let e : true ≡ false = sym shut ∙ stays in absurd (ground arith)

-- The rows of an answer, and their end, for these columns.
abbrev pub AreRows :
    {X : Type 0} → (Conversion → Bytes → Option X) → Bool → Answer → List MysqlField → Type 0
AreRows convert parse_time a columns =
    All (IsRow convert parse_time columns (length columns)) a.rows
    × ((status : ℕ) × (read_status (a.status.0 ∷ a.status.1 ∷ []) ≡ ok status)
        × (more_results status ≡ false))

module _ {X : Type 0} (convert : Conversion → Bytes → Option X) where
  -- On an open connection that takes the command, and where the server answers with one result set,
  -- which is a packet with the number of columns, a definition of each that `readColumns1` accepts,
  -- the end of these, rows whose values can be read and converted, and the end of the rows, whose
  -- status announces no further result, `writeDataRow` returns without an error, for any fuel above the number
  -- of columns and that of rows. It has read the answer and nothing of what follows it, the client
  -- has been sent each of its bytes in order, and the connection is still open.
  pub write_data_row-Completes :
      (fuel : ℕ) (env : Sending) (query : Bytes) (c : MysqlConn) (a : Answer)
      (columns : List MysqlField) (rest : Bytes)
      → c.closed ≡ false
      → Sends env query c
      → IsDefined c.settings.columns_with_alias a columns
      → AreRows convert c.settings.parse_time a columns
      → length a.definitions < fuel
      → length a.rows < fuel
      → c.stream.incoming ≡ answer_bytes (next_sequence 0 (3 ∷ query)) a rest
      → (d : MysqlConn) × (write_data_row no_file convert fuel env query c ≡ done d (ok tt))
        × (d.closed ≡ false)
        × (d.stream.incoming ≡ rest)
        × (c.to_client ++ c.stream.incoming ≡ d.to_client ++ rest)
  unfolding write_data_row
  write_data_row-Completes fuel env query c a columns rest open_conn sends defined
        (all, (status, read, last)) some_fuel enough at =
      let i = next_sequence 0 (3 ∷ query) in
      let j = last_sequence (next_sequence i a.header) (definitions_sent a) in
      let (d, e, (same, shut, settings, rows)) =
        query1_answered no_file fuel env query c a columns
          (sent j (rows_sent a.rows (last_payload a)) rest) open_conn sends defined some_fuel at in
      let canceled : c.stream.canceled ≡ d.stream.canceled = sym (ap (λ s. s.canceled) same) in
      let all' =
        subst (λ r. All (IsRow convert d.settings.parse_time r.columns (length r.columns)) a.rows)
          (sym rows)
          (subst (λ s. All (IsRow convert s.parse_time columns (length columns)) a.rows)
            (sym settings) all) in
      let (f, e', (here, stays, gone)) =
        rows_end convert fuel (length d.rows.columns) j a.warnings.0 a.warnings.1 a.status.0
          a.status.1 status d a.rows rest enough
          (shut ∙ open_conn, ap (λ r. r.has_conn) rows, ap (λ r. r.done) rows) all' read last
          (same ∙ ap (stream _ j) canceled) in
      let run : write_data_row no_file convert fuel env query c ≡ done f (ok tt) =
        ap (λ o. and_then o (λ _ c. rows_loop convert fuel (length c.rows.columns) c)) e ∙ e' in
      let left : f.stream.incoming ≡ rest = ap (λ s. s.incoming) here in
      (
        f,
        run,
        stays,
        left,
        done_end c f stays (subst (Served c) run (write_data_row-Served convert fuel env query c))
            ∙ ap (λ b. f.to_client ++ b) left,
      )
