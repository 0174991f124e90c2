-- ===== src/Mysql/Query/Delivery.antt =====
-- `writeDataRow` of proxy/mysql.go: what the client has been sent when it returns.
use dbrwproxy.Prelude.{
  ℕ, zero, suc, ◌+◌, ◌∷◌, ◌≡◌, refl, sym, ap, Bytes, List, ◌++◌, Bool, true, false, Bool-cases, inl,
  inr, Option, none, some, length, if◌then◌else◌,
}
use dbrwproxy.Prelude.Int.{ℤ, pos, negsuc}
use dbrwproxy.Mysql.Errors.{ok, err, panic}
use dbrwproxy.Mysql.Packets.Writing.{Sent, write_packet}
use dbrwproxy.Mysql.Values.{Conversion}
use dbrwproxy.Mysql.Connection.{
  MysqlField, MysqlConn, Outcome, done, stuck, M, and_then, clear_result,
}
use dbrwproxy.Mysql.Connection.Delivery.{
  Level, Delivers, Delivers-trans, Relays, >>=-Relays, stuck-Relays, cleanup_keeps,
}
use dbrwproxy.Mysql.Results.Relaying.{
  read_result_set_header_packet1-Relays, text_next_result_set1-Relays, read_columns1-Relays,
}
use dbrwproxy.Mysql.Query.{
  Sending, is_eof, closes, after_send, restart, unset_reset, sink_of, write_command_packet_str,
  marked, forgive, assign, new_rows, command_and_header, read_columns_into, query1, write_data_row,
}
use dbrwproxy.Mysql.Query.Rounds.{Behind, Served, rows_loop-Served}

-- The command leaves the server's bytes and the client's as they are.
after_send-Delivers : (c : MysqlConn) (sent : Option Sent) → Delivers c (after_send c sent)
unfolding after_send
after_send-Delivers c none = tt
after_send-Delivers c (some (sent, sequence, none)) = (refl, refl)
after_send-Delivers c (some (sent, sequence, some e)) = elim (Bool-cases (closes e)) [
  | inl shut ↦
      let d : MysqlConn = record c {
        to_server = c.to_server ++ sent;
        stream = record (c.stream) { sequence = sequence };
      } in
      let (down, same, stream, _) = cleanup_keeps d in
      rw shut ((c.stream.incoming, ap (λ b. b ++ c.stream.incoming) (sym same)), inr down)
  | inr stays ↦ rw stays ((c.stream.incoming, refl), inl refl)
]

write_command_packet_str-Relays :
    (env : Sending) (command : ℕ) (arg : Bytes) → Relays (write_command_packet_str env command arg)
unfolding write_command_packet_str
write_command_packet_str-Relays env command arg = record {
  delivers = λ c. elim (Bool-cases env.busy) [
    | inl busy ↦ rw busy ((c.stream.incoming, refl), inl refl)
    | inr ready ↦
        rw ready
          (sending c (write_packet env.net env.alive (sink_of c) (0 ∷ 0 ∷ 0 ∷ 0 ∷ command ∷ arg)))
  ];
}
  where
    sending :
        (c : MysqlConn) (sent : Option Sent)
        → Delivers c (after_send (unset_reset (length arg + 1) (restart c)) sent)
    sending c sent =
        Delivers-trans c (unset_reset (length arg + 1) (restart c)) _ refl refl
          (after_send-Delivers (unset_reset (length arg + 1) (restart c)) sent)

marked-Delivers {ℓ} :
    {A : Type ℓ} (c : MysqlConn) (o : Outcome A) → Delivers c o → Delivers c (marked o)
unfolding marked
marked-Delivers c (done d (ok a)) h = h
marked-Delivers c (done d (err e)) h = h
marked-Delivers c (done d panic) h = h
marked-Delivers c stuck h = h

command_and_header-Relays :
    (in_file : Bytes → M (Unit {0}))
    → ((bytes : Bytes) → Relays (in_file bytes))
    → (env : Sending) (query : Bytes) → Relays (command_and_header in_file env query)
unfolding command_and_header
command_and_header-Relays in_file file env query = record {
  delivers = λ c. marked-Delivers c _ (
      (>>=-Relays (write_command_packet_str-Relays env 3 query)
          (λ _. read_result_set_header_packet1-Relays in_file file)).delivers
        c);
}

forgive-Served : (c : MysqlConn) (o : Outcome (Unit {0})) → Delivers c o → Served c (forgive o)
unfolding forgive
forgive-Served c (done d (ok a)) (l, same) = ((d.stream.incoming, l), inl l)
forgive-Served c (done d (err e)) h = elim (Bool-cases (is_eof e)) [
  | inl last ↦ rw last h
  | inr other ↦ rw other h
]
forgive-Served c (done d panic) h = h
forgive-Served c stuck h = tt

assign-Served : (c : MysqlConn) (o : Outcome (List MysqlField)) → Delivers c o → Served c (assign o)
unfolding assign
assign-Served c (done d (ok columns)) (l, same) = ((d.stream.incoming, l), inl l)
assign-Served c (done d (err e)) h = h
assign-Served c (done d panic) h = h
assign-Served c stuck h = tt

-- The steps of a query, one behind the other.
Served-after {ℓ} :
    {A : Type ℓ} (c : MysqlConn) (o : Outcome A) (f : A → M (Unit {0}))
    → Delivers c o
    → ((a : A) (d : MysqlConn) → Level c d → d.closed ≡ c.closed → Served c (f a d))
    → Served c (and_then o f)
Served-after c (done d (ok a)) f (l, same) rest = rest a d l same
Served-after c (done d (err e)) f h rest = h
Served-after c (done d panic) f h rest = h
Served-after c stuck f h rest = tt

Served-then :
    (c : MysqlConn) (o : Outcome (Unit {0})) (f : Unit {0} → M (Unit {0}))
    → Served c o
    → ((d : MysqlConn) → Behind c d → Served c (f tt d))
    → Served c (and_then o f)
Served-then c (done d (ok a)) f h rest = rest d h
Served-then c (done d (err e)) f h rest = h
Served-then c (done d panic) f h rest = h
Served-then c stuck f h rest = tt

if-Served {ℓ} :
    {A : Type ℓ} (t : Bool) (c : MysqlConn) (o p : Outcome A)
    → Served c o
    → Served c p
    → Served c (if t then o else p)
if-Served true c o p h k = h
if-Served false c o p h k = k

module _ (in_file : Bytes → M (Unit {0})) (file : (bytes : Bytes) → Relays (in_file bytes)) where
  read_columns_into-Served :
      (b c : MysqlConn) (fuel : ℕ) (n : ℤ)
      → Level b c
      → c.closed ≡ b.closed
      → Served b (read_columns_into in_file fuel n c)
  unfolding read_columns_into
  read_columns_into-Served b c fuel (pos zero) level same = forgive-Served b _ (
      Delivers-trans b (new_rows true c) _ level same
        ((text_next_result_set1-Relays in_file file fuel).delivers (new_rows true c)))
  read_columns_into-Served b c fuel (pos (suc n)) level same = assign-Served b _ (
      Delivers-trans b (new_rows false c) _ level same
        ((read_columns1-Relays fuel (pos (suc n))).delivers (new_rows false c)))
  read_columns_into-Served b c fuel (negsuc n) level same = assign-Served b _ (
      Delivers-trans b (new_rows false c) _ level same
        ((read_columns1-Relays fuel (negsuc n)).delivers (new_rows false c)))

  query1-Served :
      (fuel : ℕ) (env : Sending) (query : Bytes) (c : MysqlConn)
      → Served c (query1 in_file fuel env query c)
  unfolding query1 clear_result
  query1-Served fuel env query c =
      if-Served c.closed c _ _ ((c.stream.incoming, refl), inl refl)
        (Served-after c (command_and_header in_file env query (clear_result c))
          (read_columns_into in_file fuel)
          (Delivers-trans c (clear_result c) _ refl refl
            ((command_and_header-Relays in_file file env query).delivers (clear_result c)))
          (λ n d. read_columns_into-Served c d fuel n))

-- The server does not ask for a file.
abbrev pub no_file : Bytes → M (Unit {0})
no_file bytes c = stuck

module _ {X : Type 0} (convert : Conversion → Bytes → Option X) where
  -- Whenever `writeDataRow` returns, with or without an error, for a query whose answer does not ask
  -- for a file, the client was sent bytes with which what the server sent begins, in order and nothing
  -- else; and where the connection is not closed, exactly those bytes of the server that were read
  -- from the connection. Where it panics, the first of these holds.
  pub write_data_row-Served :
      (fuel : ℕ) (env : Sending) (query : Bytes) (c : MysqlConn)
      → Served c (write_data_row no_file convert fuel env query c)
  unfolding write_data_row
  write_data_row-Served fuel env query c =
      Served-then c _ _ (query1-Served no_file (λ bytes. stuck-Relays) fuel env query c)
        (λ d. rows_loop-Served convert fuel (length d.rows.columns) c d)
