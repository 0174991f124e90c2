-- ===== src/Proxy/Runs.antt =====
-- Concrete sessions of the package proxy, and its theorems at concrete inputs.
use dbrwproxy.Prelude.{
  ℕ, ◌+◌, ◌-◌, ◌^◌, ◌≡◌, ◌≢◌, ◌≤◌, ◌<◌, refl, Bytes, codes, true, false, List, [], ◌∷◌, ◌++◌,
  Option, some, arith, All,
}
use dbrwproxy.Prelude.Int.{pos, negsuc, pos_part, int_add}
use dbrwproxy.Prelude.Decimal.{itoa}
use dbrwproxy.Config.{SecondaryDb}
use dbrwproxy.Pool.{ConnectionPool}
use dbrwproxy.Proxy.Choice.{WeightedDb, choose_by_weight}
use dbrwproxy.Proxy.Choice.Shares.{IsWeighed, total, choose_by_weight-share, choose_by_weight-total}
use dbrwproxy.Proxy.Secondaries.{init_mysql_db, mysql_dsn}
use dbrwproxy.Proxy.Secondaries.Active.{Keeps, weights, init_mysql_db-kept, choose_after_init}
use dbrwproxy.Proxy.Session.{chunk, reading}
use dbrwproxy.Proxy.Outbound.{
  Outbound, Passage, Forwards, handle_outbound, handle_outbound-Forwards,
}

abbrev weighted : ℕ → ℕ → WeightedDb ℕ
weighted db weight = record { name = codes "r"; db = db; weight = pos weight }

-- A quarter of the reads for the first replica, as in the README.
abbrev pub two_replicas : List (WeightedDb ℕ)
two_replicas = weighted 0 100 ∷ weighted 1 300 ∷ []

abbrev pub draw_150 : ℕ → ℕ
draw_150 n = 150

choose_by_weight-share_example : choose_by_weight draw_150 (pos 400) two_replicas ≡ some 1
unfolding total
choose_by_weight-share_example =
    choose_by_weight-share draw_150 (weighted 0 100 ∷ []) (weighted 1 300) [] (omega arith)
      (omega arith) (omega arith) (omega arith)

abbrev pub draw_last : ℕ → ℕ
draw_last n = n - 1

abbrev replica : SecondaryDb
replica = record {
  name = codes "E";
  host = codes "127.0.0.1";
  port = pos 3306;
  user = codes "root";
  password = codes "12345678";
  db_name = codes "mydb";
  weight = pos 100;
  max_idle_conn_count = pos 1;
  max_open_conns_count = pos 10;
  conn_max_lifetime = pos 60;
}

abbrev replicas : List SecondaryDb
replicas = replica ∷ record replica { weight = negsuc 4 } ∷ []

abbrev accepts : Bytes → Option Bytes
accepts dsn = some dsn

dsn_runs : mysql_dsn replica ≡ codes "root:12345678@(127.0.0.1:3306)/mydb"
unfolding mysql_dsn itoa
dsn_runs = refl

init_mysql_db-kept_example :
    let (dbs, sum) = init_mysql_db accepts replicas in
    Keeps accepts replicas dbs × (sum ≡ pos (total dbs)) × All IsWeighed dbs × (total dbs < 2 ^ 63)
unfolding weights
init_mysql_db-kept_example = init_mysql_db-kept accepts replicas (omega arith)

pub draw_last-lt : (n : ℕ) → 0 < n → draw_last n < n
draw_last-lt n h = omega arith

some_active : (init_mysql_db accepts replicas).0 ≢ []
unfolding init_mysql_db
some_active h = cc

choose_by_weight-total_example :
    (front : List (WeightedDb ℕ)) × (d : WeightedDb ℕ) × (back : List (WeightedDb ℕ))
    × (two_replicas ≡ front ++ (d ∷ back))
    × (total front ≤ draw_last (total two_replicas))
    × (draw_last (total two_replicas) < total front + pos_part d.weight)
    × (choose_by_weight draw_last (pos (total two_replicas)) two_replicas ≡ some d.db)
unfolding total
choose_by_weight-total_example =
    choose_by_weight-total draw_last two_replicas draw_last-lt (omega arith) (omega arith) (λ h. cc)

choose_after_init_example :
    let (dbs, sum) = init_mysql_db accepts replicas in
    (front : List (WeightedDb (Bytes × ConnectionPool))) × (d : WeightedDb (Bytes × ConnectionPool))
    × (back : List (WeightedDb (Bytes × ConnectionPool))) × (dbs ≡ front ++ (d ∷ back))
    × (choose_by_weight draw_last sum dbs ≡ some d.db)
unfolding weights
choose_after_init_example =
    choose_after_init accepts draw_last replicas draw_last-lt (omega arith) some_active

abbrev fresh : Outbound
fresh = record { sent = []; status = reading }

abbrev passages : List Passage
passages =
    record { read = chunk (codes "ab"); write_ok = true }
    ∷ record { read = chunk (codes "c"); write_ok = false }
    ∷ record { read = chunk (codes "d"); write_ok = true }
    ∷ []

passages_sent : (handle_outbound fresh passages).sent ≡ codes "ab"
unfolding handle_outbound
passages_sent = refl

handle_outbound-Forwards_example : Forwards fresh passages (handle_outbound fresh passages)
handle_outbound-Forwards_example = handle_outbound-Forwards fresh passages refl

pub second_chosen : choose_by_weight draw_150 (pos 400) two_replicas ≡ some 1
unfolding choose_by_weight int_add
second_chosen = refl
