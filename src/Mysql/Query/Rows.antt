-- ===== src/Mysql/Query/Rows.antt =====
-- `writeDataRow` of proxy/mysql.go on the rows of an answer.
use dbrwproxy.Prelude.{
  ℕ, zero, suc, ◌≡◌, ◌<◌, refl, sym, ap, subst, ◌∙◌, Bytes, List, [], ◌∷◌, ◌++◌, Bool, true, false,
  ◌&&◌, Option, arith, length, All, ◌==◌,
}
use dbrwproxy.Prelude.Int.{pos}
use dbrwproxy.Mysql.Errors.{ok, err, eof}
use dbrwproxy.Mysql.Packets.Joining.{stream}
use dbrwproxy.Mysql.Values.{Conversion, Value, decode_values}
use dbrwproxy.Mysql.Fields.{more_results, read_status}
use dbrwproxy.Mysql.Connection.{MysqlConn, MysqlField, done, error}
use dbrwproxy.Mysql.Results.Pairs.{next1}
use dbrwproxy.Mysql.Query.{rows_loop}
use dbrwproxy.Mysql.Query.Answer.{
  next_sequence, packets, sent, last_sequence, After, relaying_packet,
}

-- Rows are still to come on a connection that is open.
abbrev pub Ready : MysqlConn → Type 0
Ready c = (c.closed ≡ false) × (c.rows.has_conn ≡ true) × (c.rows.done ≡ false)

-- The end of the rows of the last result set: two bytes of warnings and two of the status.
abbrev pub end_of_rows : ℕ → ℕ → ℕ → ℕ → Bytes
end_of_rows w x s t = 0xfe ∷ w ∷ x ∷ s ∷ t ∷ []

-- What comes behind the definitions of the columns: rows, and their end.
abbrev pub rows_sent : List Bytes → Bytes → List Bytes
rows_sent rows last = rows ++ (last ∷ [])

module _ {X : Type 0} (convert : Conversion → Bytes → Option X) where
  -- A payload that is not an error or the end of the rows, and whose values can be converted.
  abbrev pub IsRow : Bool → List MysqlField → ℕ → Bytes → Type 0
  IsRow parse_time columns n [] = ⊥
  IsRow parse_time columns n (b ∷ bs) =
      ((b == 0xff) ≡ false)
      × ((b == 0xfe && length (b ∷ bs) == 5) ≡ false)
      × (values : List (Value X)) × (decode_values convert parse_time columns (b ∷ bs) n 0 (pos 0)
          ≡ ok values)

  next1_row :
      (c : MysqlConn) (n sequence : ℕ) (p rest : Bytes)
      → Ready c
      → IsRow c.settings.parse_time c.rows.columns n p
      → c.stream ≡ stream (packets sequence p ++ rest) sequence c.stream.canceled
      → (d : MysqlConn) × (values : List (Value X)) × (next1 convert n c ≡ done d (ok values))
        × After c d rest (next_sequence sequence p)
  unfolding next1 error
  next1_row c n sequence [] rest ready is_row at = absurd is_row
  next1_row c n sequence (b ∷ bs) rest (open_conn, has, more) (no_error, no_end, values, decoded)
        at =
      let (d, e, (same, shut, rows, settings)) =
        relaying_packet c sequence (b ∷ bs) rest (omega arith) at in
      let decoded' : decode_values convert d.settings.parse_time d.rows.columns (b ∷ bs) n 0 (pos 0)
          ≡ ok values =
        ap (λ s. decode_values convert s.parse_time d.rows.columns (b ∷ bs) n 0 (pos 0)) settings
        ∙ ap (λ r. decode_values convert c.settings.parse_time r.columns (b ∷ bs) n 0 (pos 0)) rows
        ∙ decoded in
      (
        d,
        values,
        simp (has, open_conn, more, e, no_error, no_end, decoded'),
        (same, shut, rows, settings),
      )

  next1_end :
      (c : MysqlConn) (n sequence w x s t status : ℕ) (rest : Bytes)
      → Ready c
      → read_status (s ∷ t ∷ []) ≡ ok status
      → more_results status ≡ false
      → c.stream
        ≡ stream (packets sequence (end_of_rows w x s t) ++ rest) sequence c.stream.canceled
      → (d : MysqlConn) × (next1 convert n c ≡ done d (err eof))
        × ((d.stream ≡ stream rest (next_sequence sequence (end_of_rows w x s t)) c.stream.canceled)
            × (d.closed ≡ false)
            × (d.rows.has_conn ≡ false))
  unfolding next1 error
  next1_end c n sequence w x s t status rest (open_conn, has, more) read last at =
      let (d, e, (same, shut, rows, settings)) =
        relaying_packet c sequence (end_of_rows w x s t) rest (omega arith) at in
      let left : MysqlConn = record d {
        status = status;
        rows = record (d.rows) { has_conn = false; done = true };
      } in
      let has' : d.rows.has_conn ≡ true = ap (λ r. r.has_conn) rows ∙ has in
      (left, simp (has, open_conn, more, e, read, has', last), (same, shut ∙ open_conn, refl))

  pub rows_end :
      (fuel n sequence w x s t status : ℕ) (c : MysqlConn) (rows : List Bytes) (rest : Bytes)
      → length rows < fuel
      → Ready c
      → All (IsRow c.settings.parse_time c.rows.columns n) rows
      → read_status (s ∷ t ∷ []) ≡ ok status
      → more_results status ≡ false
      → c.stream
        ≡ stream
            (sent sequence (rows_sent rows (end_of_rows w x s t)) rest)
            sequence
            c.stream.canceled
      → (d : MysqlConn) × (rows_loop convert fuel n c ≡ done d (ok tt))
        × ((d.stream
              ≡ stream rest
                  (last_sequence sequence (rows_sent rows (end_of_rows w x s t)))
                  c.stream.canceled)
            × (d.closed ≡ false)
            × (d.rows.has_conn ≡ false))
  unfolding rows_loop
  rows_end zero n sequence w x s t status c rows rest less ready all read last at =
      absurd (omega arith)
  rows_end (suc fuel) n sequence w x s t status c [] rest less ready all read last at =
      let (d, e, after) = next1_end c n sequence w x s t status rest ready read last at in
      (d, rw (e, rows_loop) refl, after)
  rows_end (suc fuel) n sequence w x s t status c (p ∷ rows) rest less (open_conn, has, more)
        (is_row, all) read last at =
      let (d, values, e, (same, shut, rows_same, settings)) =
        next1_row c n sequence p _ (open_conn, has, more) is_row at in
      let canceled : c.stream.canceled ≡ d.stream.canceled = sym (ap (λ s. s.canceled) same) in
      let all' =
        subst (λ r. All (IsRow d.settings.parse_time r.columns n) rows) (sym rows_same)
          (subst (λ s. All (IsRow s.parse_time c.rows.columns n) rows) (sym settings) all) in
      let (f, e', (here, down, gone)) =
        rows_end fuel n (next_sequence sequence p) w x s t status d rows rest (omega arith)
          (
            shut ∙ open_conn,
            ap (λ r. r.has_conn) rows_same ∙ has,
            ap (λ r. r.done) rows_same ∙ more,
          )
          all' read last (same ∙ ap (stream _ (next_sequence sequence p)) canceled) in
      (f, rw (e, rows_loop) e', (here ∙ ap (stream rest _) (sym canceled), down, gone))
