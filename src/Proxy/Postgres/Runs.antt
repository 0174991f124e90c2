-- ===== src/Proxy/Postgres/Runs.antt =====
-- Concrete sessions of proxy/postgres.go, and its theorems at concrete inputs.
use dbrwproxy.Prelude.{
  ◌+◌, ◌≡◌, refl, Bytes, codes, true, false, [], ◌∷◌, ◌++◌, none, some, arith, length,
}
use dbrwproxy.Prelude.Int.{pos, int_add}
use dbrwproxy.Proxy.Choice.{choose_by_weight}
use dbrwproxy.Proxy.Statements.{match_select}
use dbrwproxy.Proxy.Session.{chunk, to_main, to_replica, reading, panicked}
use dbrwproxy.Proxy.Postgres
use dbrwproxy.Proxy.Postgres.{PostgresProxy}
use dbrwproxy.Proxy.Postgres.Routing
use dbrwproxy.Proxy.Postgres.Answer.{
  Rows, row_description, data_row, error, write_data_row, prepare_row_description,
}
use dbrwproxy.Proxy.Postgres.Answer.Protocol.{
  closing, all_written, write_data_row-messages, failed_select_unfinished,
}
use dbrwproxy.Proxy.Runs.{two_replicas, draw_150, second_chosen}

abbrev pg_session : Postgres.Session
pg_session = record {
  proxy = record { dbs = two_replicas; total_weight = pos 400; in_trans = false };
  log = [];
  status = reading;
}

abbrev pg_round : Bytes → Postgres.Round
pg_round b = record { read = chunk b; intn = draw_150; write_ok = true }

-- A simple query message.
abbrev simple : Bytes → Bytes
simple sql = b'Q' ∷ 0 ∷ 0 ∷ 0 ∷ (length sql + 5) ∷ (sql ++ (0 ∷ []))

abbrev pg_select : Bytes
pg_select = simple (codes "SELECT 1")

abbrev pg_begin : Bytes
pg_begin = simple (codes " BEGIN")

pg_delegated :
    Postgres.delegate_select pg_session (pg_round pg_select) pg_select
    ≡ some (record pg_session { log = to_replica 1 0 (codes "SELECT 1") ∷ [] }, true)
unfolding Postgres.delegate_select Postgres.query_text match_select choose_by_weight int_add
pg_delegated = refl

pg_delegate_select-Follows_example :
    Routing.Follows pg_session
      (Routing.chunk_kind pg_select)
      (record pg_session { log = to_replica 1 0 (codes "SELECT 1") ∷ [] })
      true
pg_delegate_select-Follows_example =
    Routing.pg_delegate_select-Follows pg_session _ (pg_round pg_select) pg_select true pg_delegated

short_query_panics_example :
    (Postgres.handle_inbound pg_session (pg_round (b'Q' ∷ 0 ∷ []) ∷ [])).status ≡ panicked
short_query_panics_example =
    Routing.short_query_panics pg_session (pg_round (b'Q' ∷ 0 ∷ [])) (0 ∷ []) refl refl
      (omega arith)

pg_begin_text : Postgres.query_text pg_begin ≡ Postgres.query (codes " BEGIN")
unfolding Postgres.query_text
pg_begin_text = refl

pg_select_text : Postgres.query_text pg_select ≡ Postgres.query (codes "SELECT 1")
unfolding Postgres.query_text
pg_select_text = refl

pg_select_matches : match_select (codes "SELECT 1") ≡ true
unfolding match_select
pg_select_matches = refl

hidden_begin_example :
    (Postgres.handle_inbound pg_session (pg_round pg_begin ∷ pg_round pg_select ∷ [])).log
    ≡ to_main pg_begin ∷ to_replica 1 0 (codes "SELECT 1") ∷ []
hidden_begin_example =
    Routing.hidden_begin pg_session (pg_round pg_begin) (pg_round pg_select) pg_begin pg_select
      (codes "BEGIN") (codes "SELECT 1") 32 1 refl refl refl refl pg_begin_text (omega arith) refl
      pg_select_text pg_select_matches second_chosen

abbrev result : Rows
result = record {
  columns = codes "a" ∷ codes "b" ∷ [];
  type_names = codes "INT4" ∷ codes "TEXT" ∷ [];
  rows = (some (codes "1") ∷ none ∷ []) ∷ [];
  scan_failed = false;
  iteration_failed = false;
}

write_data_row-messages_example :
    (write_data_row (some result) all_written []).0
    ≡ row_description (prepare_row_description result)
      ∷ data_row (some (codes "1") ∷ none ∷ [])
      ∷ closing 1
write_data_row-messages_example = write_data_row-messages result refl

failed_select_unfinished_example :
    (write_data_row none all_written [] ≡ ([], error))
    × (write_data_row (some (record result { scan_failed = true })) all_written [] ≡ (
      row_description (prepare_row_description (record result { scan_failed = true }))
          ∷ data_row (some (codes "1") ∷ none ∷ [])
          ∷ [],
      error,
    ))
failed_select_unfinished_example =
    failed_select_unfinished (record result { scan_failed = true }) refl
