-- ===== src/Mysql/Query/Runs.antt =====
-- Runs of a query whose answer is relayed, and the theorems at inputs.
use dbrwproxy.Prelude.{
  ℕ, inl, codes, bytes_eq, ◌≡◌, refl, Bytes, [], ◌∷◌, ◌++◌, Bool, true, false, Option, none, some,
  arith,
}
use dbrwproxy.Prelude.Int.{int_add}
use dbrwproxy.Mysql.Errors.{ok}
use dbrwproxy.Mysql.Integers.{from_bytes}
use dbrwproxy.Mysql.LengthEncoded.{
  skip_length_encoded_string, read_length_encoded_string, read_length_encoded_integer,
}
use dbrwproxy.Mysql.Packets.{read_packet, read_packet1}
use dbrwproxy.Mysql.Packets.Writing.{whole, write_packet}
use dbrwproxy.Mysql.Values.{Conversion, bytes, decode_values}
use dbrwproxy.Mysql.Connection.{
  MysqlField, MysqlConn, Outcome, done, stuck, clear_result, plain, relaying,
}
use dbrwproxy.Mysql.Results.Pairs.{
  text_next_result_set1, next1, read_result_set_header_packet1, read_columns1,
}
use dbrwproxy.Mysql.Query.{Sending, rows_loop, write_data_row}
use dbrwproxy.Mysql.Query.Rounds.{Served}
use dbrwproxy.Mysql.Query.Delivery.{no_file, write_data_row-Served}
use dbrwproxy.Mysql.Query.Answer.{next_sequence}
use dbrwproxy.Mysql.Query.Asking.{Answer, IsDefined, answer_bytes}
use dbrwproxy.Mysql.Query.Complete.{AreRows, write_data_row-Completes}
use dbrwproxy.Mysql.Fields.{parse_column, read_status}
use dbrwproxy.Mysql.Columns.{column_names, type_database_name}
use dbrwproxy.Mysql.Query.Commands.{exec}
use dbrwproxy.Mysql.Query.Infile.{Files, index_of, handle_in_file_request}
use dbrwproxy.Mysql.Query.Params.{set_names, set_more, split_commas}
use dbrwproxy.Mysql.Query.Endless.{row, here, lost_connection_endless}

abbrev no_conversion : Conversion → Bytes → Option Bytes
no_conversion how text = some text

abbrev idle : Bytes → MysqlConn
idle incoming = record {
  stream = record { incoming = incoming; sequence = 9; canceled = none };
  closed = false;
  status = 0;
  affected_rows = [];
  insert_ids = [];
  settings = record { reject_read_only = false; columns_with_alias = false; parse_time = false };
  rows = record { has_conn = false; columns = []; done = false };
  max_allowed_packet = 67108864;
  reset = true;
  to_server = [];
  to_client = [];
}

abbrev all_sent : Sending
all_sent = record { net = λ k. whole; alive = true; busy = false }

-- The number of columns, the column a, the end of the columns, a row and the end of the rows.
abbrev one_row : Bytes
one_row =
    1 ∷ 0 ∷ 0 ∷ 1 ∷ 1 ∷ 23 ∷ 0 ∷ 0 ∷ 2 ∷ 3 ∷ 100 ∷ 101 ∷ 102 ∷ 0 ∷ 0 ∷ 0 ∷ 1 ∷ 97 ∷ 0 ∷ 12 ∷ 33 ∷ 0
    ∷ 1 ∷ 0 ∷ 0 ∷ 0 ∷ 253 ∷ 0 ∷ 0 ∷ 0 ∷ 0 ∷ 0 ∷ 5 ∷ 0 ∷ 0 ∷ 3 ∷ 254 ∷ 0 ∷ 0 ∷ 2 ∷ 0 ∷ 2 ∷ 0 ∷ 0 ∷ 4
    ∷ 1 ∷ 49 ∷ 5 ∷ 0 ∷ 0 ∷ 5 ∷ 254 ∷ 0 ∷ 0 ∷ 2 ∷ 0 ∷ []

abbrev select_a : Bytes
select_a = 83 ∷ 97 ∷ []

-- What a run leaves: what is still to come, what the client has, and whether there was an error.
abbrev left : Outcome (Unit {0}) → Option (Bytes × Bytes × Bool)
left (done c (ok a)) = some (c.stream.incoming, c.to_client, true)
left (done c r) = some (c.stream.incoming, c.to_client, false)
left stuck = none

row_relayed :
    left (write_data_row no_file no_conversion 9 all_sent select_a (idle (one_row ++ (7 ∷ []))))
    ≡ some (7 ∷ [], one_row, true)
unfolding write_data_row clear_result write_packet read_result_set_header_packet1 relaying
    read_packet1 read_columns1 skip_length_encoded_string int_add read_length_encoded_string
    from_bytes next1
row_relayed = refl

write_data_row-Served_example :
    Served (idle one_row) (write_data_row no_file no_conversion 9 all_sent select_a (idle one_row))
write_data_row-Served_example =
    write_data_row-Served no_conversion 9 all_sent select_a (idle one_row)

-- Among the rows: the next packet is a row of one value.
abbrev among_rows : Bytes → ℕ → MysqlConn
among_rows incoming sequence = record (idle incoming) {
  stream = record { incoming = incoming; sequence = sequence; canceled = none };
  rows = record { has_conn = true; columns = []; done = false };
}

abbrev row_sent : MysqlConn
row_sent = record (among_rows (5 ∷ []) 10) { to_client = 2 ∷ 0 ∷ 0 ∷ 9 ∷ 1 ∷ 49 ∷ [] }

one_row_read :
    next1 no_conversion 0 (among_rows (2 ∷ 0 ∷ 0 ∷ 9 ∷ 1 ∷ 49 ∷ 5 ∷ []) 9) ≡ done row_sent (ok [])
unfolding next1 relaying read_packet1
one_row_read = refl

lost_connection_endless_example :
    rows_loop no_conversion 1000 0 (among_rows (2 ∷ 0 ∷ 0 ∷ 9 ∷ 1 ∷ 49 ∷ 5 ∷ []) 9) ≡ stuck
lost_connection_endless_example =
    lost_connection_endless no_conversion 1000 0 (row row_sent [] one_row_read (here row_sent))
      (omega arith, refl, refl, refl)

-- The column a, and the answer of one row as its payloads.
abbrev column_a : MysqlField
column_a = record {
  table_name = [];
  name = 97 ∷ [];
  field_length = 1;
  flags = 0;
  field_type = 253;
  decimals = 0;
  char_set = 33;
}

abbrev answer_a : Answer
answer_a = record {
  header = 1 ∷ [];
  definitions =
      (3 ∷ 100 ∷ 101 ∷ 102 ∷ 0 ∷ 0 ∷ 0 ∷ 1 ∷ 97 ∷ 0 ∷ 12 ∷ 33 ∷ 0 ∷ 1 ∷ 0 ∷ 0 ∷ 0 ∷ 253 ∷ 0 ∷ 0 ∷ 0
        ∷ 0 ∷ 0 ∷ [])
      ∷ [];
  end_mark = 254;
  end_rest = 0 ∷ 0 ∷ 2 ∷ 0 ∷ [];
  rows = (1 ∷ 49 ∷ []) ∷ [];
  warnings = (0, 0);
  status = (2, 0);
}

answer_a-IsDefined : IsDefined false answer_a (column_a ∷ [])
unfolding read_length_encoded_integer parse_column skip_length_encoded_string int_add
    read_length_encoded_string from_bytes
answer_a-IsDefined = (0, refl, (refl, refl, refl, 1, false, refl, refl), (refl, refl, tt), refl)

answer_a-AreRows : AreRows no_conversion false answer_a (column_a ∷ [])
unfolding decode_values read_status read_length_encoded_string read_length_encoded_integer int_add
    from_bytes
answer_a-AreRows = (((refl, refl, bytes (49 ∷ []) ∷ [], refl), tt), (2, refl, refl))

abbrev asked : MysqlConn
asked = idle (answer_bytes (next_sequence 0 (3 ∷ select_a)) answer_a (7 ∷ []))

write_data_row-Completes_example :
    (d : MysqlConn) × (write_data_row no_file no_conversion 9 all_sent select_a asked
      ≡ done d (ok tt))
    × (d.closed ≡ false)
    × (d.stream.incoming ≡ 7 ∷ [])
    × (asked.to_client ++ asked.stream.incoming ≡ d.to_client ++ (7 ∷ []))
write_data_row-Completes_example =
    write_data_row-Completes no_conversion 9 all_sent select_a asked answer_a (column_a ∷ [])
      (7 ∷ []) refl (λ i. refl, refl, refl, omega arith) answer_a-IsDefined answer_a-AreRows
      (omega arith) (omega arith) refl

-- An UPDATE that is answered by an OK packet, and one that a replica refuses.
update_done :
    left (exec no_file 9 all_sent select_a (idle (7 ∷ 0 ∷ 0 ∷ 1 ∷ 0 ∷ 1 ∷ 0 ∷ 2 ∷ 0 ∷ 0 ∷ 0 ∷ [])))
    ≡ some ([], [], true)
unfolding exec clear_result write_packet read_packet from_bytes plain
update_done = refl

update_refused :
    left (
      exec no_file 9 all_sent select_a
        (idle (9 ∷ 0 ∷ 0 ∷ 1 ∷ 255 ∷ 10 ∷ 5 ∷ 35 ∷ 72 ∷ 89 ∷ 48 ∷ 48 ∷ 48 ∷ [])))
    ≡ some ([], [], false)
unfolding exec clear_result write_packet read_packet from_bytes plain
update_refused = refl

-- The commands that parameters of a connection lead to.
charset_first :
    set_names (codes "utf8_bin") (codes "utf8") ≡ codes "SET NAMES utf8 COLLATE utf8_bin"
unfolding set_names bytes_eq
charset_first = refl

two_variables :
    set_more (set_more [] (codes "a") (codes "1")) (codes "b") (codes "2")
    ≡ codes "SET a = 1, b = 2"
unfolding set_more bytes_eq
two_variables = refl

charsets_cut : split_commas (codes "utf8mb4,utf8") ≡ codes "utf8mb4" ∷ codes "utf8" ∷ []
unfolding split_commas
charsets_cut = refl

-- What the column a is called, with and without its table, and its type.
column_a_names :
    column_names
      (record asked { rows = record { has_conn = true; columns = column_a ∷ []; done = true } })
    ≡ (97 ∷ []) ∷ []
unfolding column_names
column_a_names = refl

column_a_type : type_database_name column_a ≡ codes "VARCHAR"
unfolding type_database_name
column_a_type = refl

bigint_type :
    type_database_name (record column_a { field_type = 8; flags = 32 }) ≡ codes "UNSIGNED BIGINT"
unfolding type_database_name
bigint_type = refl

-- LOAD DATA of an empty file: the OK packet behind it is read and not relayed.
abbrev one_empty_file : Files
one_empty_file = record {
  reader_register = λ name. none;
  file_register = λ name. true;
  allow_all_files = false;
  open_file = λ name. inl (0, record { reads = []; close_error = none });
  max_write_size = 16777214;
}

abbrev load_data : Bytes
load_data = 2 ∷ 0 ∷ 0 ∷ 1 ∷ 251 ∷ 120 ∷ 7 ∷ 0 ∷ 0 ∷ 3 ∷ 0 ∷ 1 ∷ 0 ∷ 2 ∷ 0 ∷ 0 ∷ 0 ∷ []

load_data_unanswered :
    left (
      write_data_row
        (handle_in_file_request (λ k. all_sent) one_empty_file)
        no_conversion
        9
        all_sent
        select_a
        (idle load_data))
    ≡ some ([], 2 ∷ 0 ∷ 0 ∷ 1 ∷ 251 ∷ 120 ∷ [], true)
unfolding write_data_row clear_result write_packet read_result_set_header_packet1 relaying
    read_packet1 handle_in_file_request index_of bytes_eq read_packet plain from_bytes
    text_next_result_set1 next1
load_data_unanswered = refl
