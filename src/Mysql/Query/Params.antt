-- ===== src/Mysql/Query/Params.antt =====
-- mysql/connection.go: what a new connection asks for, `handleParams` and `getSystemVar`.
-- A Go map is the list of its entries in the order in which the loop meets them. The environment of the
-- k-th command is `env k`.
use dbrwproxy.Prelude.{
  ℕ, ◌+◌, Bytes, List, [], ◌∷◌, ◌++◌, true, false, Option, ◌==◌, if◌then◌else◌, bytes_eq, codes,
}
use dbrwproxy.Prelude.Int.{ℤ, pos, negsuc, ltb_ℤ}
use dbrwproxy.Mysql.Errors.{ok, err, panic}
use dbrwproxy.Mysql.Values.{Conversion, Value, null, bytes, converted}
use dbrwproxy.Mysql.Connection.{
  MysqlConn, Outcome, done, stuck, M, and_then, ◌>>=◌, ◌>>◌, lift, pure, modify, clear_result,
}
use dbrwproxy.Mysql.Results.{set_rows}
use dbrwproxy.Mysql.Results.Pairs.{read_until_eof, read_result_set_header_packet, read_row}
use dbrwproxy.Mysql.Query.{Sending, write_command_packet_str}
use dbrwproxy.Mysql.Query.Commands.{exec}

-- strings.Split(val, ",")
cut : Bytes → Bytes → List Bytes
cut part [] = part ∷ []
cut part (c ∷ cs) = if c == 44 then part ∷ cut [] cs else cut (part ++ (c ∷ [])) cs

unfoldable pub split_commas : Bytes → List Bytes
unfolding cut
split_commas = cut []

-- "SET NAMES …"
unfoldable pub set_names : Bytes → Bytes → Bytes
set_names collation charset =
    let plain = codes "SET NAMES " ++ charset in
    if bytes_eq collation [] then plain else plain ++ codes " COLLATE " ++ collation

-- The command behind one more variable.
unfoldable pub set_more : Bytes → Bytes → Bytes → Bytes
set_more command param val =
    (if bytes_eq command [] then codes "SET " else command ++ codes ", ")
    ++ param
    ++ codes " = "
    ++ val

module _ (in_file : Bytes → M (Unit {0})) (fuel : ℕ) (env : ℕ → Sending) where
  -- An error is forgotten where another charset is left to try.
  or_next : ℕ → Outcome (Unit {0}) → M ℕ → Outcome ℕ
  or_next k (done c (ok _)) next = done c (ok (k + 1))
  or_next k (done c (err e)) next = next c
  or_next k (done c panic) next = done c panic
  or_next k stuck next = stuck

  -- The charsets in turn, up to the first that is accepted; the result is the number of commands.
  unfoldable pub try_charsets : Bytes → ℕ → List Bytes → M ℕ
  unfolding or_next exec set_names
  try_charsets collation k [] c = done c (ok k)
  try_charsets collation k (charset ∷ []) c =
      and_then (exec in_file fuel (env k) (set_names collation charset) c) (λ _. pure (k + 1))
  try_charsets collation k (charset ∷ other ∷ rest) c =
      let next = try_charsets collation (k + 1) (other ∷ rest) in
      or_next k (exec in_file fuel (env k) (set_names collation charset) c) next

  -- The loop over the parameters, with the command so far.
  params_loop : Bytes → ℕ → Bytes → List (Bytes × Bytes) → M (Unit {0})
  unfolding try_charsets split_commas set_more exec
  params_loop collation k command [] c =
      if bytes_eq command [] then done c (ok tt) else exec in_file fuel (env k) command c
  params_loop collation k command ((param, val) ∷ params) c =
      let charsets =
        and_then (try_charsets collation k (split_commas val) c)
          (λ n. params_loop collation n command params) in
      let other = params_loop collation k (set_more command param val) params c in
      if bytes_eq param (codes "charset") then charsets else other

  -- `handleParams`
  unfoldable pub handle_params : Bytes → List (Bytes × Bytes) → M (Unit {0})
  unfolding params_loop
  handle_params collation params = params_loop collation 0 [] params

-- dest[0].([]byte), which panics on anything else and on no value.
first_bytes : {X : Type 0} → List (Value X) → M Bytes
first_bytes [] = lift panic
first_bytes (bytes text ∷ values) = pure text
first_bytes (null ∷ values) = lift panic
first_bytes (converted x ∷ values) = lift panic

-- make([]driver.Value, n) panics on a negative n.
count_of : ℤ → M ℕ
count_of (pos n) = pure n
count_of (negsuc n) = lift panic

-- []mysqlField{{fieldType: fieldTypeVarChar}}
abbrev one_text_column : MysqlConn → MysqlConn
one_text_column = set_rows (record {
  has_conn = true;
  columns =
      record {
        table_name = [];
        name = [];
        field_length = 0;
        flags = 0;
        field_type = 15;
        decimals = 0;
        char_set = 0;
      }
      ∷ [];
  done = false;
})

module _ {X : Type 0} (convert : Conversion → Bytes → Option X)
    (in_file : Bytes → M (Unit {0})) where
  -- `getSystemVar`
  unfoldable pub get_system_var : ℕ → Sending → Bytes → M Bytes
  unfolding clear_result write_command_packet_str read_result_set_header_packet read_until_eof
      read_row count_of first_bytes
  get_system_var fuel env name c =
      let asked : M Bytes = (do
        write_command_packet_str env 3 (codes "SELECT @@" ++ name)
        n ← read_result_set_header_packet in_file
        modify one_text_column
        if ltb_ℤ (pos 0) n then read_until_eof fuel else pure tt
        count ← count_of n
        values ← read_row convert count
        text ← first_bytes values
        read_until_eof fuel
        pure text) in
      asked (clear_result c)
