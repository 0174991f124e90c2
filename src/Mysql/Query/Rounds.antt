-- ===== src/Mysql/Query/Rounds.antt =====
-- The loop of `writeDataRow` of proxy/mysql.go: what the client has been sent behind it.
use dbrwproxy.Prelude.{
  ℕ, zero, suc, ◌≡◌, refl, ◌∙◌, Bytes, List, true, Bool-cases, ◌⊎◌, inl, inr, Option,
}
use dbrwproxy.Mysql.Errors.{MysqlError, ok, err, panic, eof}
use dbrwproxy.Mysql.Packets.{read_error}
use dbrwproxy.Mysql.Values.{Conversion, Value}
use dbrwproxy.Mysql.Connection.{MysqlConn, Outcome, done, stuck, error}
use dbrwproxy.Mysql.Connection.Delivery.{Level, Front, Delivers}
use dbrwproxy.Mysql.Results.Pairs.{next1}
use dbrwproxy.Mysql.Results.Relaying.{next1-Relays}
use dbrwproxy.Mysql.Query.{is_eof, rows_loop}

-- The client was sent a front of what the server sent, and, unless the connection is closed, all that
-- was read of it.
abbrev pub Behind : MysqlConn → MysqlConn → Type 0
Behind c d = Front c d × (Level c d ⊎ (d.closed ≡ true))

abbrev pub Served {ℓ} : {A : Type ℓ} → MysqlConn → Outcome A → Type 0
Served c (done d (ok a)) = Behind c d
Served c (done d (err e)) = Behind c d
Served c (done d panic) = Front c d
Served c stuck = Unit {0}

module _ {X : Type 0} (convert : Conversion → Bytes → Option X) where
  next1_rests :
      (n : ℕ) (c : MysqlConn)
      → c.closed ≡ true
      → (e : MysqlError) × (next1 convert n c ≡ done c (err e))
  unfolding next1 error
  next1_rests n c shut = elim (Bool-cases c.rows.has_conn) [
    | inl has ↦ (read_error c.stream.canceled, rw (has, shut) refl)
    | inr none_left ↦ (eof, rw none_left refl)
  ]

  closed-Served :
      (fuel n : ℕ) (b c : MysqlConn)
      → Behind b c
      → c.closed ≡ true
      → Served b (rows_loop convert fuel n c)
  unfolding rows_loop
  closed-Served zero n b c h shut = tt
  closed-Served (suc fuel) n b c h shut =
      let (e, at) = next1_rests n c shut in
      elim (Bool-cases (is_eof e)) [
        | inl last ↦ rw (at, rows_loop, last) h
        | inr other ↦ rw (at, rows_loop, other) (closed-Served fuel n b c h shut)
      ]

  -- What a reading of a row relays follows what was relayed before it.
  Behind-ok : (b c d : MysqlConn) → Level b c → Level c d → Behind b d
  Behind-ok b c d level l = ((d.stream.incoming, level ∙ l), inl (level ∙ l))

  Behind-err : (b c d : MysqlConn) → Level b c → Behind c d → Behind b d
  Behind-err b c d level ((rest, f), inl l) = ((rest, level ∙ f), inl (level ∙ l))
  Behind-err b c d level ((rest, f), inr shut) = ((rest, level ∙ f), inr shut)

  Front-after : (b c d : MysqlConn) → Level b c → Front c d → Front b d
  Front-after b c d level (rest, f) = (rest, level ∙ f)

  -- A round of the loop, by what `Next1` comes to.
  round-Served :
      (fuel n : ℕ) (b c : MysqlConn) (o : Outcome (List (Value X)))
      → next1 convert n c ≡ o
      → Level b c
      → Delivers c o
      → ((d : MysqlConn) → Behind b d → Served b (rows_loop convert fuel n d))
      → Served b (rows_loop convert (suc fuel) n c)
  unfolding rows_loop
  round-Served fuel n b c (done d (ok values)) e level (l, same) rest =
      rw (e, rows_loop) (rest d (Behind-ok b c d level l))
  round-Served fuel n b c (done d (err x)) e level h rest = elim (Bool-cases (is_eof x)) [
    | inl last ↦ rw (e, rows_loop, last) (Behind-err b c d level h)
    | inr other ↦ rw (e, rows_loop, other) (rest d (Behind-err b c d level h))
  ]
  round-Served fuel n b c (done d panic) e level h rest =
      rw (e, rows_loop) (Front-after b c d level h)
  round-Served fuel n b c stuck e level h rest = rw (e, rows_loop) tt

  pub rows_loop-Served :
      (fuel n : ℕ) (b c : MysqlConn) → Behind b c → Served b (rows_loop convert fuel n c)
  unfolding rows_loop
  rows_loop-Served zero n b c h = tt
  rows_loop-Served (suc fuel) n b c (f, inr shut) =
      closed-Served (suc fuel) n b c (f, inr shut) shut
  rows_loop-Served (suc fuel) n b c (f, inl level) =
      round-Served fuel n b c (next1 convert n c) refl level ((next1-Relays convert n).delivers c)
        (rows_loop-Served fuel n b)
