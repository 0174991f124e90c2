-- ===== src/Pool/Runs.antt =====
-- Concrete runs of the pool of pool/connectionPool.go, and its theorems at concrete inputs.
use dbrwproxy.Prelude.{◌≡◌, refl, false, [], ◌∷◌, none, some, arith, length}
use dbrwproxy.Prelude.Int.{pos}
use dbrwproxy.Prelude.{List, ℕ, ◌++◌}
use dbrwproxy.Pool.{
  ConnectionPool, new_connection_pool, get, put, close, open_pool, reap_one, reap_rounds,
  idle_conns, ok,
}
use dbrwproxy.Pool.Ownership.{Usage, gets, closes, step, here, next, Accounted, Run-Accounted}
use dbrwproxy.Pool.Closing.{Apart, close_leaks}
use dbrwproxy.Pool.Opening.{Outcome, Waits, open_starts, open_pool-Waits}
use dbrwproxy.Pool.Reaper.{Reaping, Reach, reap_pass, reap_race}

-- Three idle connections of at most ten.
abbrev three : ConnectionPool
three = record {
  conns = 1 ∷ 2 ∷ 3 ∷ [];
  min_conns = 1;
  max_conns = 10;
  idle_timeout = pos 60;
  closed = false;
}

abbrev three_used : Usage
three_used = record { pool = three; lent = []; shut = []; made = 1 ∷ 2 ∷ 3 ∷ [] }

get_oldest : (get three none).1 ≡ ok 1
unfolding get
get_oldest = refl

close-three : (close three).1 ≡ 1 ∷ 2 ∷ []
unfolding close
close-three = refl

put_closed : (put (close three).0 7).1 ≡ 7 ∷ []
unfolding close put
put_closed = refl

three-Accounted : Accounted three_used
three-Accounted = record { balance = λ a. omega arith; bounded = omega arith }

Run-Accounted_example : Accounted (step three_used (gets none))
Run-Accounted_example = Run-Accounted three-Accounted (next here (gets none) tt)

close_leaks_example :
    let v = step (step three_used closes) (gets none) in
    (older : List ℕ) × (older ++ v.pool.conns ≡ three.conns)
    × (length v.pool.conns ≡ 1)
    × Apart v.pool.conns v.shut
close_leaks_example =
    close_leaks three_used refl three-Accounted (λ a. ground arith) (next here (gets none) tt)

open_starts_example : Outcome 2 (open_pool (λ k. some k) (new_connection_pool 2 5 (pos 60)))
open_starts_example = open_starts (λ k. k) 2 5 (pos 60) (omega arith)

open_pool-Waits_example : Waits 5 (open_pool (λ k. some k) (new_connection_pool 7 5 (pos 60)))
open_pool-Waits_example = open_pool-Waits (λ k. k) 7 5 (pos 60) (omega arith)

abbrev unused : Usage
unused = record { pool = record three { conns = [] }; lent = []; shut = []; made = [] }

reap_pass_example :
    (oldest : List ℕ) × (newest : List ℕ) × (oldest ++ newest ≡ three.conns)
    × (length newest ≡ 1)
    × (reap_rounds (idle_conns three) three ≡ some (record three { conns = newest }, oldest))
reap_pass_example = reap_pass three

reap_race_example :
    (t : Reaping) × Reach (record { usage = three_used; rounds = 0 }) t
    × (t.rounds ≡ idle_conns three)
    × (t.usage.pool.conns ≡ 2 ∷ [])
    × (t.usage.pool.min_conns ≡ 1)
    × (reap_one t.usage.pool ≡ some (record (t.usage.pool) { conns = [] }, 2))
unfolding idle_conns
reap_race_example =
    reap_race (record { usage = three_used; rounds = 0 }) 2 refl refl (omega arith) (omega arith)
      (omega arith)
