-- ===== src/Proxy/Secondaries.antt =====
-- `initMysqlDB` of proxy/mysql.go and `initDB` of proxy/postgres.go: the replicas of a proxy.
pub mod Active
pub mod Dsn
mod Runs
use dbrwproxy.Prelude.{
  ℕ, Bytes, codes, List, [], ◌∷◌, ◌++◌, Option, none, some, Bool, true, false, if◌then◌else◌,
}
use dbrwproxy.Prelude.Int.{ℤ, pos, pos_part, ltb_ℤ, leb_ℤ, int_add, int_mul}
use dbrwproxy.Prelude.Decimal.{itoa}
use dbrwproxy.Config.{SecondaryDb}
use dbrwproxy.Pool.{ConnectionPool, new_connection_pool}
use dbrwproxy.Proxy.Choice.{WeightedDb}

-- fmt.Sprintf("%s:%s@(%s:%d)/%s", …)
unfoldable pub mysql_dsn : SecondaryDb → Bytes
mysql_dsn s =
    s.user
    ++ (codes ":"
        ++ (s.password
            ++ (codes "@("
                ++ (s.host ++ (codes ":" ++ (itoa s.port ++ (codes ")/" ++ s.db_name)))))))

-- A setting of the file where it is positive, and the default otherwise.
abbrev pub positive_or : ℤ → ℤ → ℤ
positive_or v default = if ltb_ℤ (pos 0) v then v else default

-- `time.Second`, in nanoseconds.
abbrev second : ℤ
second = pos 1_000_000_000

abbrev lifetime : SecondaryDb → ℤ
lifetime s =
    if ltb_ℤ (pos 0) s.conn_max_lifetime
    then int_mul s.conn_max_lifetime second
    else int_mul (pos 60) second

-- The pool of one replica. Both counts are positive, so `pos_part` loses nothing.
unfoldable pub mysql_pool : SecondaryDb → ConnectionPool
mysql_pool s =
    new_connection_pool (pos_part (positive_or s.max_idle_conn_count (pos 1)))
      (pos_part (positive_or s.max_open_conns_count (pos 10))) (lifetime s)

-- The loop of both functions, with `dbs` and `total` as its state; `one` is what a round makes of an
-- entry, and `none` is a `continue`.
module _ {ℓ} {A : Type ℓ} where
  abbrev add_db : Option (WeightedDb A) → List (WeightedDb A) × ℤ → List (WeightedDb A) × ℤ
  add_db none (dbs, sum) = (dbs, sum)
  add_db (some d) (dbs, sum) = (dbs ++ (d ∷ []), int_add sum d.weight)

  pub init_loop :
      (SecondaryDb → Option (WeightedDb A))
      → List SecondaryDb
      → List (WeightedDb A) × ℤ
      → List (WeightedDb A) × ℤ
  init_loop one [] state = state
  init_loop one (s ∷ rest) state = init_loop one rest (add_db (one s) state)

-- `CreateConnector` parses the DSN and may refuse it; `C` is the type of connectors.
module _ {C : Type 0} (create_connector : Bytes → Option C) where
  unfoldable pub init_mysql_one : SecondaryDb → Option (WeightedDb (C × ConnectionPool))
  unfolding mysql_dsn mysql_pool
  init_mysql_one s =
      if leb_ℤ s.weight (pos 0) then none else elim (create_connector (mysql_dsn s)) [
        | none ↦ none
        | some c ↦ some (record { name = s.name; db = (c, mysql_pool s); weight = s.weight })
      ]

  unfoldable pub init_mysql_db : List SecondaryDb → List (WeightedDb (C × ConnectionPool)) × ℤ
  unfolding init_mysql_one init_loop
  init_mysql_db secondaries = init_loop init_mysql_one secondaries ([], pos 0)

-- A `*sqlx.DB` with its limits: what `initDB` sets on it.
pub record SqlDb : Type 0 where
  pub source : Bytes
  pub max_idle_conns : ℤ
  pub max_open_conns : ℤ
  pub conn_max_lifetime : ℤ

-- fmt.Sprintf("host=%s port=%d user=%s password=%s dbname=%s application_name=pgproxy …")
unfoldable pub postgres_dsn : SecondaryDb → Bytes
postgres_dsn s =
    codes "host="
    ++ (s.host
        ++ (codes " port="
            ++ (itoa s.port
                ++ (codes " user="
                    ++ (s.user
                        ++ (codes " password="
                            ++ (s.password
                                ++ (codes " dbname="
                                    ++ (s.db_name
                                        ++ codes
                                            " application_name=pgproxy sslmode=disable")))))))))

-- `opens` tells whether sqlx.Open accepts a source.
module _ (opens : Bytes → Bool) where
  unfoldable pub init_one : SecondaryDb → Option (WeightedDb SqlDb)
  unfolding postgres_dsn
  init_one s =
      if leb_ℤ s.weight (pos 0)
      then none
      else if opens (postgres_dsn s)
      then some (record {
        name = s.name;
        db = record {
          source = postgres_dsn s;
          max_idle_conns = positive_or s.max_idle_conn_count (pos 1);
          max_open_conns = positive_or s.max_open_conns_count (pos 10);
          conn_max_lifetime = lifetime s;
        };
        weight = s.weight;
      })
      else none

  unfoldable pub init_db : List SecondaryDb → List (WeightedDb SqlDb) × ℤ
  unfolding init_one init_loop
  init_db secondaries = init_loop init_one secondaries ([], pos 0)
