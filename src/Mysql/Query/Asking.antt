-- ===== src/Mysql/Query/Asking.antt =====
-- `query1` of mysql/connection.go on the columns of a complete answer.
use dbrwproxy.Prelude.{
  ℕ, suc, ◌+◌, ◌≡◌, ◌<◌, ◌≤◌, refl, sym, ap, subst, ◌∙◌, Bytes, List, [], ◌∷◌, ◌++◌, Bool, true,
  false, not, ◌&&◌, if◌then◌else◌, arith, length, ◌==◌,
}
use dbrwproxy.Prelude.Int.{pos}
use dbrwproxy.Mysql.Errors.{ok}
use dbrwproxy.Mysql.LengthEncoded.{read_length_encoded_integer, to_int}
use dbrwproxy.Mysql.Packets.Joining.{stream}
use dbrwproxy.Mysql.Packets.RoundTrip.{write_packet-frames}
use dbrwproxy.Mysql.Packets.Writing.{whole}
use dbrwproxy.Mysql.Fields.{ends_columns}
use dbrwproxy.Mysql.Connection.{
  MysqlConn, MysqlField, TextRows, M, and_then, relaying, done, clear_result,
}
use dbrwproxy.Mysql.Results.{append_result, header_of, columns_of, columns_loop}
use dbrwproxy.Mysql.Results.Pairs.{read_result_set_header_packet1, read_columns1}
use dbrwproxy.Mysql.Query.{
  Sending, query1, write_command_packet_str, after_send, command_and_header, read_columns_into,
  assign, marked, new_rows, restart, unset_reset, sink_of,
}
use dbrwproxy.Mysql.Query.Answer.{
  next_sequence, packets, sent, last_sequence, After, relaying_packet, Defines, columns_end,
}
use dbrwproxy.Mysql.Query.Rows.{rows_sent, end_of_rows}

-- A connection on which a command can be sent, and an environment that lets it through.
abbrev pub Sends : Sending → Bytes → MysqlConn → Type 0
Sends env query c =
    ((i : ℕ) → env.net i ≡ whole)
    × (env.busy ≡ false)
    × ((c.reset && not env.alive) ≡ false)
    × (length query + 1 ≤ c.max_allowed_packet)

command_sent :
    (env : Sending) (query : Bytes) (c : MysqlConn)
    → Sends env query c
    → (d : MysqlConn) × (write_command_packet_str env 3 query c ≡ done d (ok tt))
      × After c d c.stream.incoming (next_sequence 0 (3 ∷ query))
unfolding write_command_packet_str after_send
command_sent env query c (goes, ready, live, fits) =
    let room : Bytes = 0 ∷ 0 ∷ 0 ∷ 0 ∷ [] in
    let sent =
      write_packet-frames env.net env.alive (sink_of c) room (3 ∷ query) goes refl (omega arith)
        live in
    let before = unset_reset (length query + 1) (restart c) in
    let d : MysqlConn = record before {
      to_server = before.to_server ++ packets 0 (3 ∷ query);
      stream = record (before.stream) { sequence = next_sequence 0 (3 ∷ query) };
    } in
    (d, simp (ready, sent), (refl, refl, refl, refl))

-- The first packet of an answer with this number of columns.
abbrev pub Announces : Bytes → ℕ → Type 0
Announces [] count = ⊥
Announces (b ∷ bs) count =
    ((b == 0) ≡ false)
    × ((b == 0xff) ≡ false)
    × ((b == 0xfb) ≡ false)
    × (v : ℕ) × (nul : Bool) × (read_length_encoded_integer (b ∷ bs) ≡ ok (v, nul, length (b ∷ bs)))
    × (to_int v ≡ pos count)

header_read :
    (in_file : Bytes → M (Unit {0})) (c : MysqlConn) (sequence count : ℕ) (p rest : Bytes)
    → Announces p count
    → c.stream ≡ stream (packets sequence p ++ rest) sequence c.stream.canceled
    → (d : MysqlConn) × (read_result_set_header_packet1 in_file c ≡ done d (ok (pos count)))
      × After c d rest (next_sequence sequence p)
unfolding read_result_set_header_packet1 header_of
header_read in_file c sequence count [] rest none_sent at = absurd none_sent
header_read in_file c sequence count (b ∷ bs) rest
      (not_ok, no_error, not_file, v, nul, counted, as_int) at =
    let (d, e, after) = relaying_packet (append_result c) sequence (b ∷ bs) rest (omega arith) at in
    let all : (length (b ∷ bs) == length (b ∷ bs)) ≡ true = ground arith in
    (d, rw (e, counted, not_ok, no_error, not_file, all, as_int) refl, after)

-- The payloads of an answer: the number of columns, their definitions, the end of these, the rows,
-- and the warnings and the status at the end of the rows.
pub record Answer : Type 0 where
  pub header : Bytes
  pub definitions : List Bytes
  pub end_mark : ℕ
  pub end_rest : Bytes
  pub rows : List Bytes
  pub warnings : ℕ × ℕ
  pub status : ℕ × ℕ

abbrev pub definitions_sent : Answer → List Bytes
definitions_sent a = a.definitions ++ ((a.end_mark ∷ a.end_rest) ∷ [])

abbrev pub last_payload : Answer → Bytes
last_payload a = end_of_rows a.warnings.0 a.warnings.1 a.status.0 a.status.1

-- Its bytes, from a sequence number on, with `rest` behind them.
abbrev pub answer_bytes : ℕ → Answer → Bytes → Bytes
answer_bytes sequence a rest =
    let i = next_sequence sequence a.header in
    packets sequence a.header
    ++ sent i (definitions_sent a)
        (sent (last_sequence i (definitions_sent a)) (rows_sent a.rows (last_payload a)) rest)

abbrev pub IsDefined : Bool → Answer → List MysqlField → Type 0
IsDefined alias a columns =
    (count : ℕ) × (length a.definitions ≡ suc count)
    × Announces a.header (suc count)
    × Defines alias a.definitions columns
    × (ends_columns (a.end_mark ∷ a.end_rest) a.end_mark ≡ true)

-- A query has been sent and the columns of its answer have been read.
abbrev pub Queried : MysqlConn → MysqlConn → Bytes → ℕ → List MysqlField → Type 0
Queried c d rest sequence columns =
    (d.stream ≡ stream rest sequence c.stream.canceled)
    × (d.closed ≡ c.closed)
    × (d.settings ≡ c.settings)
    × (d.rows ≡ record { has_conn = true; columns = columns; done = false })

if_false {ℓ} : {A : Type ℓ} (t : Bool) (x y : A) → t ≡ false → (if t then x else y) ≡ y
if_false t x y e = ap (λ u. if u then x else y) e

read_columns_done :
    (in_file : Bytes → M (Unit {0})) (fuel k : ℕ) (c d : MysqlConn) (columns : List MysqlField)
    → columns_loop relaying fuel (suc k) 0 [] c.settings.columns_with_alias (new_rows false c)
      ≡ done d (ok columns)
    → read_columns_into in_file fuel (pos (suc k)) c
      ≡ done (record d { rows = record (d.rows) { columns = columns } }) (ok tt)
unfolding read_columns_into read_columns1 columns_of assign
read_columns_done in_file fuel k c d columns e = ap assign e

-- The steps of `query1`, each on the connection that the one before has left.
query1_steps :
    (in_file : Bytes → M (Unit {0})) (fuel : ℕ) (env : Sending) (query : Bytes)
    (c c1 c2 d : MysqlConn) (k : ℕ)
    → c.closed ≡ false
    → write_command_packet_str env 3 query (clear_result c) ≡ done c1 (ok tt)
    → read_result_set_header_packet1 in_file c1 ≡ done c2 (ok (pos (suc k)))
    → read_columns_into in_file fuel (pos (suc k)) c2 ≡ done d (ok tt)
    → query1 in_file fuel env query c ≡ done d (ok tt)
unfolding query1 command_and_header marked clear_result
query1_steps in_file fuel env query c c1 c2 d k open_conn e1 e2 e3 =
    if_false c.closed _ _ open_conn
    ∙ ap
        (λ o.
          and_then (marked (and_then o (λ _. read_result_set_header_packet1 in_file)))
            (read_columns_into in_file fuel))
        e1
    ∙ ap (λ o. and_then (marked o) (read_columns_into in_file fuel)) e2
    ∙ e3

pub query1_answered :
    (in_file : Bytes → M (Unit {0})) (fuel : ℕ) (env : Sending) (query : Bytes) (c : MysqlConn)
    (a : Answer) (columns : List MysqlField) (rest : Bytes)
    → c.closed ≡ false
    → Sends env query c
    → IsDefined c.settings.columns_with_alias a columns
    → length a.definitions < fuel
    → c.stream.incoming
      ≡ packets (next_sequence 0 (3 ∷ query)) a.header
        ++ sent (next_sequence (next_sequence 0 (3 ∷ query)) a.header) (definitions_sent a) rest
    → (d : MysqlConn) × (query1 in_file fuel env query c ≡ done d (ok tt))
      × Queried c d rest
          (last_sequence
            (next_sequence (next_sequence 0 (3 ∷ query)) a.header)
            (definitions_sent a))
          columns
unfolding clear_result
query1_answered in_file fuel env query c a columns rest open_conn sends
      (count, counted, announced, defined, ended) enough at =
    let i = next_sequence 0 (3 ∷ query) in
    let j = next_sequence i a.header in
    let (c1, e1, (same1, shut1, rows1, settings1)) =
      command_sent env query (clear_result c) sends in
    let canceled1 : c.stream.canceled ≡ c1.stream.canceled = sym (ap (λ s. s.canceled) same1) in
    let (c2, e2, after2) =
      header_read in_file c1 i (suc count) a.header (sent j (definitions_sent a) rest) announced
        (same1 ∙ ap (λ b. stream b i c.stream.canceled) at ∙ ap (stream _ i) canceled1) in
    let (same2, shut2, rows2, settings2) = after2 in
    let canceled2 : c1.stream.canceled ≡ c2.stream.canceled = sym (ap (λ s. s.canceled) same2) in
    let defined' =
      subst (λ s. Defines s.columns_with_alias a.definitions columns) (sym (settings2 ∙ settings1))
        defined in
    let (c3, e3, (same3, shut3, rows3, settings3)) =
      columns_end fuel (suc count) 0 j a.end_mark a.end_rest c2.settings.columns_with_alias
        (new_rows false c2) a.definitions [] columns rest enough (omega (arith, counted)) defined'
        ended (same2 ∙ ap (stream _ j) canceled2) in
    let d : MysqlConn = record c3 { rows = record (c3.rows) { columns = columns } } in
    (
      d,
      query1_steps in_file fuel env query c c1 c2 d count open_conn e1 e2
          (read_columns_done in_file fuel count c2 c3 columns e3),
      (
        same3 ∙ ap (stream rest _) (sym (canceled1 ∙ canceled2)),
        shut3 ∙ shut2 ∙ shut1,
        settings3 ∙ settings2 ∙ settings1,
        ap {A = TextRows} {B = TextRows} (λ r. record r { columns = columns }) rows3,
      ),
    )
