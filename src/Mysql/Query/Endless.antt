-- ===== src/Mysql/Query/Endless.antt =====
-- `writeDataRow` of proxy/mysql.go on a connection that breaks.
use dbrwproxy.Prelude.{
  ℕ, zero, suc, ◌≡◌, ◌<◌, refl, ap, ◌∙◌, Bytes, List, [], ◌++◌, true, false, Bool-cases, Option,
  none, some, arith, length, inl, inr, leb,
}
use dbrwproxy.Mysql.Errors.{MysqlError, ok, err, invalid_conn}
use dbrwproxy.Mysql.Packets.{
  read_packet1, relay_header, relay_loop, read_next, read_error, dropped, done,
}
use dbrwproxy.Mysql.Values.{Conversion, Value}
use dbrwproxy.Mysql.Connection.{MysqlConn, Outcome, stuck, error, relaying, cleanup}
use dbrwproxy.Mysql.Results.Pairs.{next1}
use dbrwproxy.Mysql.Connection.Delivery.{cleanup_keeps}
use dbrwproxy.Mysql.Query.{rows_loop, is_eof}

header_broken :
    (c : MysqlConn)
    → length c.stream.incoming < 4
    → c.stream.canceled ≡ none
    → relay_header none c.stream [] (read_next 4 c.stream.incoming)
      ≡ (done (dropped invalid_conn), [])
unfolding relay_header read_next
header_broken c short alone =
    let e : leb 4 (length c.stream.incoming) ≡ false = ground arith in rw (e, alone) refl

read_packet1_broken :
    (c : MysqlConn)
    → length c.stream.incoming < 4
    → c.stream.canceled ≡ none
    → read_packet1 c.stream ≡ some (dropped invalid_conn, [])
unfolding read_packet1 relay_loop
read_packet1_broken c short alone =
    let e = header_broken c short alone in rw (e, relay_loop, e) refl

relaying_broken :
    (c : MysqlConn)
    → length c.stream.incoming < 4
    → c.stream.canceled ≡ none
    → relaying c
      ≡ Outcome.done (cleanup (record c { to_client = c.to_client ++ [] })) (err invalid_conn)
unfolding relaying
relaying_broken c short alone = rw (read_packet1_broken c short alone) refl

module _ {X : Type 0} (convert : Conversion → Bytes → Option X) where
  -- On a closed connection with rows to come each `Next1` returns the same error.
  next1_closed :
      (n : ℕ) (c : MysqlConn)
      → c.closed ≡ true
      → c.rows.has_conn ≡ true
      → next1 convert n c ≡ Outcome.done c (err (read_error c.stream.canceled))
  unfolding next1 error
  next1_closed n c shut has = rw (has, shut) refl

  -- On a closed connection the loop never ends.
  closed_stuck :
      (fuel n : ℕ) (c : MysqlConn)
      → c.closed ≡ true
      → c.rows.has_conn ≡ true
      → c.stream.canceled ≡ none
      → rows_loop convert fuel n c ≡ stuck
  unfolding rows_loop
  closed_stuck zero n c shut has alone = refl
  closed_stuck (suc fuel) n c shut has alone =
      let e : next1 convert n c ≡ Outcome.done c (err invalid_conn) =
        next1_closed n c shut has ∙ ap (λ x. Outcome.done c (err (read_error x))) alone in
      rw (e, rows_loop) (closed_stuck fuel n c shut has alone)

  -- Less than a header is left of what the server sent.
  abbrev pub Broken : MysqlConn → Type 0
  Broken c =
      (length c.stream.incoming < 4)
      × (c.stream.canceled ≡ none)
      × (c.rows.has_conn ≡ true)
      × (c.rows.done ≡ false)

  next1-Broken :
      (n : ℕ) (c : MysqlConn)
      → Broken c
      → (d : MysqlConn) × (next1 convert n c ≡ Outcome.done d (err invalid_conn))
        × (d.closed ≡ true)
        × (d.rows.has_conn ≡ true)
        × (d.stream.canceled ≡ none)
  unfolding next1 error
  next1-Broken n c (short, alone, has, more) = elim (Bool-cases c.closed) [
    | inl shut ↦ (
      c,
      next1_closed n c shut has ∙ ap (λ x. Outcome.done c (err (read_error x))) alone,
      shut,
      has,
      alone,
    )
    | inr open_conn ↦
        let d = cleanup (record c { to_client = c.to_client ++ [] }) in
        let (shut, _, stream, rows) = cleanup_keeps (record c { to_client = c.to_client ++ [] }) in
        (
          d,
          simp (has, open_conn, more, relaying_broken c short alone),
          shut,
          ap (λ r. r.has_conn) rows ∙ has,
          ap (λ s. s.canceled) stream ∙ alone,
        )
  ]

  -- Some rounds of the loop: rows, and errors other than io.EOF.
  pub data Rounds (n : ℕ) : MysqlConn → MysqlConn → Type 0 where
    here : (c : MysqlConn) → Rounds n c c
    row :
        {c e : MysqlConn} (d : MysqlConn) (values : List (Value X))
        → next1 convert n c ≡ Outcome.done d (ok values)
        → Rounds n d e
        → Rounds n c e
    bad_row :
        {c e : MysqlConn} (d : MysqlConn) (x : MysqlError)
        → next1 convert n c ≡ Outcome.done d (err x)
        → is_eof x ≡ false
        → Rounds n d e
        → Rounds n c e

  Broken-stuck : (fuel n : ℕ) (c : MysqlConn) → Broken c → rows_loop convert fuel n c ≡ stuck
  unfolding rows_loop
  Broken-stuck zero n c broken = refl
  Broken-stuck (suc fuel) n c broken =
      let (d, e, shut, has, alone) = next1-Broken n c broken in
      rw (e, rows_loop) (closed_stuck fuel n d shut has alone)

  -- Where the server's bytes end before a whole header follows, after any number of rows, the loop of
  -- `writeDataRow` does not return after any number of rounds: `Next1` returns ErrInvalidConn, which
  -- is not io.EOF, for ever.
  pub lost_connection_endless :
      (fuel n : ℕ) {c d : MysqlConn} → Rounds n c d → Broken d → rows_loop convert fuel n c ≡ stuck
  unfolding rows_loop
  lost_connection_endless zero n r broken = refl
  lost_connection_endless (suc fuel) n (here c) broken = Broken-stuck (suc fuel) n c broken
  lost_connection_endless (suc fuel) n (row t values e r) broken =
      rw (e, rows_loop) (lost_connection_endless fuel n r broken)
  lost_connection_endless (suc fuel) n (bad_row t x e other r) broken =
      rw (e, rows_loop, other) (lost_connection_endless fuel n r broken)
