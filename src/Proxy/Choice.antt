-- ===== src/Proxy/Choice.antt =====
-- The weighted choice of a replica, which proxy/mysql.go and proxy/postgres.go both make.
pub mod Shares
use dbrwproxy.Prelude.{ℕ, ◌≡◌, Bytes, List, [], ◌∷◌, Option, none, some, if◌then◌else◌}
use dbrwproxy.Prelude.Int.{ℤ, pos, pos_part, ltb_ℤ, leb_ℤ, int_add}

-- `WeightedMysqlDB` and `WeightedDB`; `A` is the type of the pool.
pub record WeightedDb {ℓ} (A : Type ℓ) : Type ℓ where
  pub name : Bytes
  pub db : A
  pub weight : ℤ

module _ {ℓ} {A : Type ℓ} where
  -- The loop of `chooseByWeight`: `none` means that it ran to its end.
  unfoldable pub choose_loop : ℤ → ℤ → List (WeightedDb A) → Option A
  choose_loop random current [] = none
  choose_loop random current (element ∷ rest) =
      let next = int_add current element.weight in
      let later = choose_loop random next rest in
      if ltb_ℤ random next then some element.db else later

  -- `p.dbs[0].Db`, which panics on an empty slice.
  abbrev first_db : List (WeightedDb A) → Option A
  first_db [] = none
  first_db (element ∷ rest) = some element.db

  abbrev or_first : List (WeightedDb A) → Option A → Option A
  or_first dbs none = first_db dbs
  or_first dbs (some db) = some db

  -- `intn` is rand.Intn, which panics unless its argument is positive; `none` is a panic.
  unfoldable pub choose_by_weight : (ℕ → ℕ) → ℤ → List (WeightedDb A) → Option A
  unfolding choose_loop
  choose_by_weight intn total_weight dbs =
      if leb_ℤ total_weight (pos 0)
      then none
      else or_first dbs (choose_loop (pos (intn (pos_part total_weight))) (pos 0) dbs)
