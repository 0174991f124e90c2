-- ===== src/Proxy/Postgres/Answer/Protocol.antt =====
-- The messages that `writeDataRow` of proxy/postgres.go sends, and where it sends none.
use native.Mathlib.Nat.{add-zero}
use dbrwproxy.Prelude.{
  ℕ, ◌+◌, ◌≡◌, refl, ap, ◌∙◌, Bytes, codes, Bool, true, false, Option, none, some, List, [], ◌∷◌,
  ◌++◌, map, append-nil, append_assoc, arith, length,
}
use dbrwproxy.Prelude.Int.{pos}
use dbrwproxy.Prelude.Decimal.{itoa}
use dbrwproxy.Proxy.Postgres.Answer.{
  Rows, Message, row_description, data_row, command_complete, ready_for_query, error,
  prepare_row_description, write_data_row, row_loop, complete, finish,
}

-- What a client reads after its rows.
abbrev pub closing : ℕ → List Message
closing count = command_complete (codes "SELECT " ++ itoa (pos count)) ∷ ready_for_query b'I' ∷ []

abbrev pub all_written : ℕ → Bool
all_written k = true

row_loop-messages :
    (r : Rows) (rows : List (List (Option Bytes))) (count : ℕ) (sent : List Message)
    → r.scan_failed ≡ false
    → (row_loop r rows count all_written sent).0
      ≡ sent ++ (map data_row rows ++ closing (count + length rows))
unfolding row_loop complete finish
row_loop-messages r [] count sent ok =
    rw (ok, add-zero)
      (append_assoc sent (command_complete (codes "SELECT " ++ itoa (pos count)) ∷ [])
        (ready_for_query b'I' ∷ []))
row_loop-messages r (row ∷ rows) count sent ok =
    row_loop-messages r rows (count + 1) (sent ++ (data_row row ∷ [])) ok
    ∙ append_assoc sent (data_row row ∷ []) (map data_row rows ++ closing (count + 1 + length rows))
    ∙ ap (λ n. sent ++ (data_row row ∷ (map data_row rows ++ closing n))) (omega arith)

-- A SELECT that runs without an error, to a client that takes every message, is answered by the row
-- description, one message for each row in order, the tag with the number of rows, and the sign
-- that the session is ready.
pub write_data_row-messages :
    (r : Rows)
    → r.scan_failed ≡ false
    → (write_data_row (some r) all_written []).0
      ≡ row_description (prepare_row_description r)
        ∷ (map data_row r.rows ++ closing (length r.rows))
unfolding write_data_row
write_data_row-messages r ok =
    row_loop-messages r r.rows 0 (row_description (prepare_row_description r) ∷ []) ok
    ∙ ap (λ n. row_description (prepare_row_description r) ∷ (map data_row r.rows ++ closing n))
        (omega arith)

row_loop-unfinished :
    (r : Rows) (rows : List (List (Option Bytes))) (count : ℕ) (sent : List Message)
    → r.scan_failed ≡ true
    → row_loop r rows count all_written sent ≡ (sent ++ map data_row rows, error)
unfolding row_loop
row_loop-unfinished r [] count sent bad = rw (bad, append-nil)
row_loop-unfinished r (row ∷ rows) count sent bad =
    row_loop-unfinished r rows (count + 1) (sent ++ (data_row row ∷ [])) bad ∙ rw append_assoc

-- Where the replica refuses the statement, `writeDataRow` sends nothing, and where a row does not
-- scan, its messages stop after the rows before that one: no error and no sign that the session is
-- ready follow.
pub failed_select_unfinished :
    (r : Rows)
    → r.scan_failed ≡ true
    → (write_data_row none all_written [] ≡ ([], error))
      × (write_data_row (some r) all_written []
          ≡ (row_description (prepare_row_description r) ∷ map data_row r.rows, error))
unfolding write_data_row
failed_select_unfinished r bad =
    (refl, row_loop-unfinished r r.rows 0 (row_description (prepare_row_description r) ∷ []) bad)
