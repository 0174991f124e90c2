-- ===== src/Proxy/MySql/Runs.antt =====
-- Concrete sessions of proxy/mysql.go, and its theorems at concrete inputs.
use dbrwproxy.Prelude.{
  ℕ, suc, ◌≡◌, ◌≢◌, refl, Bytes, codes, true, false, [], ◌∷◌, Option, none, some, arith, length,
}
use dbrwproxy.Prelude.Int.{pos, int_add}
use dbrwproxy.Pool.{ConnectionPool, err, connect_failed, new_connection_pool, get, put}
use dbrwproxy.Proxy.Choice.{choose_by_weight}
use dbrwproxy.Proxy.Choice.Shares.{total}
use dbrwproxy.Proxy.Statements.{match_select, match_tran_begin}
use dbrwproxy.Proxy.Kinds.{begins, ends, kind_of}
use dbrwproxy.Proxy.Session.{chunk, to_main, to_replica, reading}
use dbrwproxy.Proxy.MySql
use dbrwproxy.Proxy.MySql.{MysqlProxy, delegate_select, query, query_text, trim, handle_inbound}
use dbrwproxy.Proxy.MySql.Routing.{Follows, chunk_kind, delegate_select-Follows}
use dbrwproxy.Proxy.MySql.Returns.{Ready, Returns, delegate_select-Returns}
use dbrwproxy.Proxy.MySql.Traces.{transaction_on_main, pool_failure_unanswered}
use dbrwproxy.Proxy.Runs.{two_replicas, draw_150, draw_last, draw_last-lt, second_chosen}

abbrev empty_pool : ConnectionPool
empty_pool = new_connection_pool 1 10 (pos 60)

abbrev session : MySql.Session
session = record {
  proxy = record { dbs = two_replicas; total_weight = pos 400; in_trans = false };
  pools = empty_pool ∷ empty_pool ∷ [];
  log = [];
  status = reading;
}

-- A COM_QUERY packet with a short statement.
abbrev packet : Bytes → Bytes
packet sql = suc (length sql) ∷ 0 ∷ 0 ∷ 0 ∷ 3 ∷ sql

abbrev round : Bytes → Option ℕ → MySql.Round
round b dial = record {
  read = chunk b;
  intn = draw_150;
  dial = dial;
  serves = λ c sql. true;
  write_ok = true;
}

abbrev select_packet : Bytes
select_packet = packet (codes "select 1")

abbrev begin_packet : Bytes
begin_packet = packet (codes " begin")

select_delegated :
    delegate_select session (round select_packet (some 7)) select_packet
    ≡ some (
      record session {
        pools = empty_pool ∷ record empty_pool { conns = 7 ∷ [] } ∷ [];
        log = to_replica 1 7 (codes "select 1") ∷ [];
      },
      true,
      none,
    )
unfolding delegate_select query_text trim match_select choose_by_weight int_add get put
    new_connection_pool
select_delegated = refl

delegate_select-Follows_example :
    Follows session
      (chunk_kind select_packet)
      (record session {
        pools = empty_pool ∷ record empty_pool { conns = 7 ∷ [] } ∷ [];
        log = to_replica 1 7 (codes "select 1") ∷ [];
      })
      true
      none
delegate_select-Follows_example =
    delegate_select-Follows session _ (round select_packet (some 7)) select_packet true none
      select_delegated

select_goes_on : chunk_kind select_packet ≢ ends
unfolding chunk_kind query_text trim match_select kind_of
select_goes_on h = cc

begin_begins : chunk_kind begin_packet ≡ begins
unfolding chunk_kind query_text trim match_select match_tran_begin kind_of
begin_begins = refl

transaction_on_main_example :
    let t = handle_inbound session (round begin_packet none ∷ round select_packet none ∷ []) in
    (t.log ≡ to_main begin_packet ∷ to_main select_packet ∷ [])
    × (t.proxy.in_trans ≡ true)
    × (t.status ≡ reading)
transaction_on_main_example =
    transaction_on_main (round begin_packet none) (round select_packet none ∷ []) begin_packet
      (select_packet ∷ []) session refl (refl, refl) begin_begins ((refl, refl), select_goes_on, tt)

select_text : query_text select_packet ≡ query (codes "select 1")
unfolding query_text trim
select_text = refl

select_matches : match_select (codes "select 1") ≡ true
unfolding match_select
select_matches = refl

nothing_lent : get empty_pool none ≡ (empty_pool, err connect_failed)
unfolding get new_connection_pool
nothing_lent = refl

pool_failure_unanswered_example : handle_inbound session (round select_packet none ∷ []) ≡ session
pool_failure_unanswered_example =
    pool_failure_unanswered session (round select_packet none) select_packet (codes "select 1") 1
      empty_pool connect_failed refl refl refl select_text select_matches second_chosen refl
      nothing_lent

session-Ready : Ready session
unfolding total
session-Ready = record {
  active = λ h. cc;
  weighed = omega arith;
  summed = refl;
  small = omega arith;
  stored = omega arith;
}

abbrev select_last : MySql.Round
select_last = record (round select_packet none) { intn = draw_last }

delegate_select-Returns_example : Returns (delegate_select session select_last select_packet)
delegate_select-Returns_example =
    delegate_select-Returns session select_last select_packet session-Ready draw_last-lt
      (λ c sql. refl)
