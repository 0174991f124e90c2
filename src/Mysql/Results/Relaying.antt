-- ===== src/Mysql/Results/Relaying.antt =====
-- The functions of mysql/packets.go and mysql/rows.go whose names end in 1: what reaches the client.
use dbrwproxy.Prelude.{
  ℕ, zero, suc, ◌+◌, ◌≡◌, refl, Bytes, List, [], ◌∷◌, ◌++◌, Bool, true, false, Bool-cases, inl, inr,
  Option, ltb, ◌==◌, ◌&&◌, length, drop, arith,
}
use dbrwproxy.Prelude.Int.{ℤ, pos, negsuc, ltb_ℤ}
use dbrwproxy.Mysql.Errors.{MysqlError, Result, ok, err, panic, eof, message, malform_pkt}
use dbrwproxy.Mysql.LengthEncoded.{read_length_encoded_integer, to_int}
use dbrwproxy.Mysql.Fields.{byte_at, read_status, ends_columns, parse_column}
use dbrwproxy.Mysql.Values.{Conversion, Value, decode_values}
use dbrwproxy.Mysql.Connection.{
  MysqlField, MysqlConn, Outcome, done, stuck, M, ◌>>=◌, ◌>>◌, lift, modify, relaying,
}
use dbrwproxy.Mysql.Connection.Delivery.{
  Relays, Delivers, Level, >>=-Relays, lift-Relays, modify-Relays, error-Relays, relaying-Relays,
  shut_down-Relays, stuck-Relays, if-Relays, if-Delivers,
}
use dbrwproxy.Mysql.Results.{
  append_result, set_status, set_done, leave_conn, reset_rows, leave_unless_next, has_next,
  answer_error, handle_error_packet, handle_ok_packet, until_eof, columns_loop, columns_of,
  header_of, another_set, next_set, not_empty_set, assign_columns, read_set_columns,
  next_result_set_of, row_packet, row_of, next_row,
}
use dbrwproxy.Mysql.Results.Pairs.{
  read_columns1, next1, read_result_set_header_packet1, text_next_result_set1,
}

answer_error-Relays {ℓ} :
    {A : Type ℓ} (r : Result (MysqlError × Bool)) → Relays (answer_error {A = A} r)
unfolding answer_error
answer_error-Relays (ok (e, true)) = shut_down-Relays e
answer_error-Relays (ok (e, false)) = lift-Relays (err e)
answer_error-Relays (err e) = lift-Relays (err e)
answer_error-Relays panic = lift-Relays panic

handle_error_packet-Relays {ℓ} :
    {A : Type ℓ} (bytes : Bytes) → Relays (handle_error_packet {A = A} bytes)
unfolding handle_error_packet
handle_error_packet-Relays bytes = record { delivers = λ c. (answer_error-Relays _).delivers c }

handle_ok_packet-Relays : (bytes : Bytes) → Relays (handle_ok_packet bytes)
unfolding handle_ok_packet
handle_ok_packet-Relays bytes =
    >>=-Relays (lift-Relays _) (λ r. modify-Relays _ (λ c. (refl, refl)))

-- What every reading begins with: a packet, and its first byte.
first_byte-Relays {ℓ} :
    {A : Type ℓ} (f : Bytes → ℕ → M A)
    → ((bytes : Bytes) (first : ℕ) → Relays (f bytes first))
    → Relays (relaying >>= λ bytes. lift (byte_at bytes (pos 0)) >>= f bytes)
first_byte-Relays f h =
    >>=-Relays relaying-Relays (λ bytes. >>=-Relays (lift-Relays (byte_at bytes (pos 0))) (h bytes))

store_status-Relays :
    (bytes : Bytes) → Relays (lift (read_status bytes) >>= λ status. modify (set_status status))
store_status-Relays bytes =
    >>=-Relays (lift-Relays (read_status bytes))
      (λ status. modify-Relays (set_status status) (λ c. (refl, refl)))

until_eof-Relays : (fuel : ℕ) → Relays (until_eof relaying fuel)
unfolding until_eof
until_eof-Relays zero = stuck-Relays
until_eof-Relays (suc fuel) = first_byte-Relays _ (λ bytes first.
    if-Relays (first == 0xff) (handle_error_packet-Relays bytes) (
      if-Relays (first == 0xfe)
        (if-Relays (length bytes == 5) (store_status-Relays (drop 3 bytes)) (lift-Relays (ok tt)))
        (until_eof-Relays fuel)))

columns_loop-Relays :
    (fuel count i : ℕ) (columns : List MysqlField) (alias : Bool)
    → Relays (columns_loop relaying fuel count i columns alias)
unfolding columns_loop
columns_loop-Relays zero count i columns alias = stuck-Relays
columns_loop-Relays (suc fuel) count i columns alias = first_byte-Relays _ (λ bytes first.
    if-Relays (ends_columns bytes first)
      (if-Relays (i == count) (lift-Relays (ok columns)) (lift-Relays (err (message []))))
      (>>=-Relays (lift-Relays (parse_column alias (ltb i count) bytes))
        (λ column. columns_loop-Relays fuel count (i + 1) (columns ++ (column ∷ [])) alias)))

columns_of-Relays : (fuel : ℕ) (n : ℤ) → Relays (columns_of relaying fuel n)
unfolding columns_of
columns_of-Relays fuel (pos count) = record {
  delivers = λ c. (columns_loop-Relays fuel count 0 [] c.settings.columns_with_alias).delivers c;
}
columns_of-Relays fuel (negsuc n) = lift-Relays panic

assign_columns-Relays : (m : M (List MysqlField)) → Relays m → Relays (λ c. assign_columns (m c))
unfolding assign_columns
assign_columns-Relays m h = record { delivers = λ c. at c (m c) (h.delivers c) }
  where
    at :
        (c : MysqlConn) (o : Outcome (List MysqlField))
        → Delivers c o
        → Delivers c (assign_columns o)
    at c (done d (ok columns)) h = h
    at c (done d (err e)) h = h
    at c (done d panic) h = h
    at c stuck h = h

leave_keeps :
    (c : MysqlConn) → Level c (leave_unless_next c) × ((leave_unless_next c).closed ≡ c.closed)
leave_keeps c = ground arith

module _ (in_file : Bytes → M (Unit {0})) (file : (bytes : Bytes) → Relays (in_file bytes)) where
  header_of-Relays : Relays (header_of relaying in_file)
  unfolding header_of
  header_of-Relays = >>=-Relays (modify-Relays append_result (λ c. (refl, refl))) (λ _.
      first_byte-Relays _ (λ bytes first.
        if-Relays (first == 0)
          (>>=-Relays (handle_ok_packet-Relays bytes) (λ _. lift-Relays (ok (pos 0))))
          (if-Relays (first == 0xff) (handle_error_packet-Relays bytes) (
            if-Relays (first == 0xfb)
              (>>=-Relays (file (drop 1 bytes)) (λ _. lift-Relays (ok (pos 0))))
              (>>=-Relays (lift-Relays (read_length_encoded_integer bytes)) (λ r.
                if-Relays (r.2 == length bytes) (lift-Relays (ok (to_int r.0)))
                  (lift-Relays (err malform_pkt))))))))

  another_set-Relays : Relays (another_set relaying in_file)
  unfolding another_set
  another_set-Relays = record {
    delivers = λ c. elim (Bool-cases (has_next c)) [
      | inl e ↦ rw e (header_of-Relays.delivers (reset_rows c))
      | inr e ↦ rw e ((c.stream.incoming, refl), inl refl)
    ];
  }

  skip-Relays : (fuel : ℕ) → Relays (until_eof relaying fuel >> modify set_done)
  skip-Relays fuel =
      >>=-Relays (until_eof-Relays fuel) (λ _. modify-Relays set_done (λ c. (refl, refl)))

  next_set-Relays : (fuel : ℕ) → Relays (next_set relaying in_file fuel)
  unfolding next_set
  next_set-Relays fuel = record {
    delivers = λ c.
        if-Delivers c.rows.has_conn c _ _
          ((>>=-Relays error-Relays (λ _.
              >>=-Relays (if-Relays c.rows.done (lift-Relays (ok tt)) (skip-Relays fuel))
                (λ _. another_set-Relays))).delivers
            c)
          ((lift-Relays {A = ℤ} (err eof)).delivers c);
  }

  not_empty_set-Relays : (fuel : ℕ) → Relays (not_empty_set relaying in_file fuel)
  unfolding not_empty_set
  not_empty_set-Relays zero = stuck-Relays
  not_empty_set-Relays (suc fuel) = >>=-Relays (next_set-Relays fuel) (λ n.
      if-Relays (ltb_ℤ (pos 0) n) (lift-Relays (ok n))
        (>>=-Relays (modify-Relays set_done (λ c. (refl, refl))) (λ _. not_empty_set-Relays fuel)))

  -- `NextResultSet1`.
  pub text_next_result_set1-Relays : (fuel : ℕ) → Relays (text_next_result_set1 in_file fuel)
  unfolding text_next_result_set1 next_result_set_of read_set_columns
  text_next_result_set1-Relays fuel =
      >>=-Relays (not_empty_set-Relays fuel)
        (λ n. assign_columns-Relays (columns_of relaying fuel n) (columns_of-Relays fuel n))

  pub read_result_set_header_packet1-Relays : Relays (read_result_set_header_packet1 in_file)
  unfolding read_result_set_header_packet1
  read_result_set_header_packet1-Relays = header_of-Relays

pub read_columns1-Relays : (fuel : ℕ) (n : ℤ) → Relays (read_columns1 fuel n)
unfolding read_columns1
read_columns1-Relays = columns_of-Relays

module _ {X : Type 0} (convert : Conversion → Bytes → Option X) where
  row_packet-Relays :
      (n : ℕ) (bytes : Bytes) (first : ℕ) → Relays (row_packet relaying convert n bytes first)
  unfolding row_packet
  row_packet-Relays n bytes first = record {
    delivers = λ c.
        if-Delivers (first == 0xfe && length bytes == 5) c _ _
          ((>>=-Relays (lift-Relays (read_status (drop 3 bytes))) (λ status.
              >>=-Relays (modify-Relays (set_status status) (λ d. (refl, refl))) (λ _.
                >>=-Relays (modify-Relays set_done (λ d. (refl, refl))) (λ _.
                  >>=-Relays (modify-Relays leave_unless_next (λ d. leave_keeps d))
                    (λ _. lift-Relays (err eof)))))).delivers
            c)
          (if-Delivers (first == 0xff) c _ _
            ((>>=-Relays (modify-Relays leave_conn (λ d. (refl, refl)))
                (λ _. handle_error_packet-Relays bytes)).delivers
              c)
            ((lift-Relays (
                decode_values convert c.settings.parse_time c.rows.columns bytes n 0
                  (pos 0))).delivers
              c));
  }

  row_of-Relays : (n : ℕ) → Relays (row_of relaying convert n)
  unfolding row_of
  row_of-Relays n = record {
    delivers = λ c.
        if-Delivers c.rows.done c _ _ ((lift-Relays {A = List (Value X)} (err eof)).delivers c)
          ((first_byte-Relays _ (λ bytes first. row_packet-Relays n bytes first)).delivers c);
  }

  -- `Next1`.
  pub next1-Relays : (n : ℕ) → Relays (next1 convert n)
  unfolding next1 next_row
  next1-Relays n = record {
    delivers = λ c.
        if-Delivers c.rows.has_conn c _ _
          ((>>=-Relays error-Relays (λ _. row_of-Relays n)).delivers c)
          ((lift-Relays {A = List (Value X)} (err eof)).delivers c);
  }
