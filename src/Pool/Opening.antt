-- ===== src/Pool/Opening.antt =====
-- `Open` of pool/connectionPool.go, and how many connections can be lent at once.
use dbrwproxy.Prelude.{
  ℕ, zero, suc, ◌+◌, ◌≤◌, ◌<◌, ◌≡◌, refl, false, List, [], ◌∷◌, ◌++◌, some, arith, length,
  length-append, ltb, ltb→lt, ltb→le, lt→ltb, Bool-cases, inl, inr, Bool, ap, ◌∙◌,
}
use dbrwproxy.Prelude.Int.{ℤ}
use dbrwproxy.Pool.{
  ConnectionPool, Opened, started, stuck, open_loop, open_send, open_pool, get, new_connection_pool,
}
use dbrwproxy.Pool.Ownership.{Usage, gets, step, Run, here, next}

-- `Open` has returned, with this many connections idle, or waits for ever, with this many.
pub data Outcome (n : ℕ) : Opened → Type 0 where
  done : (p : ConnectionPool) → length p.conns ≡ n → Outcome n (started p)

pub data Waits (n : ℕ) : Opened → Type 0 where
  waits : (p : ConnectionPool) → length p.conns ≡ n → Waits n (stuck p)

open_loop-Outcome :
    (f : ℕ → ℕ) (m n : ℕ) (p : ConnectionPool)
    → length p.conns + n ≡ m
    → m ≤ p.max_conns
    → Outcome m (open_loop n (λ k. some (f k)) p)
unfolding open_loop open_send
open_loop-Outcome f m zero p e h = done p (omega arith)
open_loop-Outcome f m (suc n) p e h =
    let grown = length-append p.conns (f n ∷ []) in
    rw (lt→ltb (length p.conns) p.max_conns (omega arith))
      (open_loop-Outcome f m n (record p { conns = p.conns ++ (f n ∷ []) }) (omega arith) h)

open_loop-Waits :
    (f : ℕ → ℕ) (n : ℕ) (p : ConnectionPool)
    → length p.conns ≤ p.max_conns
    → p.max_conns < length p.conns + n
    → Waits p.max_conns (open_loop n (λ k. some (f k)) p)
unfolding open_loop open_send
open_loop-Waits f zero p h k = absurd (omega arith)
open_loop-Waits f (suc n) p h k = elim (Bool-cases (ltb (length p.conns) p.max_conns)) [
  | inl room ↦
      let grown = length-append p.conns (f n ∷ []) in
      let fits = ltb→lt (length p.conns) p.max_conns room in
      rw room (
        open_loop-Waits f n (record p { conns = p.conns ++ (f n ∷ []) }) (omega arith)
          (omega arith))
  | inr full ↦ rw full (waits p (omega (arith, ltb→le (length p.conns) p.max_conns full)))
]

-- If every connection can be made, `Open` on a new pool returns with `minConns` connections in the
-- channel, provided that `minConns` is at most `maxConns`.
pub open_starts :
    (f : ℕ → ℕ) (least most : ℕ) (timeout : ℤ)
    → least ≤ most
    → Outcome least (open_pool (λ k. some (f k)) (new_connection_pool least most timeout))
unfolding open_pool new_connection_pool
open_starts f least most timeout h = open_loop-Outcome f least least _ (omega arith) h

-- If every connection can be made and `maxConns` is below `minConns`, `Open` on a new pool waits for
-- ever on a channel that holds `maxConns` connections.
pub open_pool-Waits :
    (f : ℕ → ℕ) (least most : ℕ) (timeout : ℤ)
    → most < least
    → Waits most (open_pool (λ k. some (f k)) (new_connection_pool least most timeout))
unfolding open_pool new_connection_pool
open_pool-Waits f least most timeout h = open_loop-Waits f least _ (omega arith) (omega arith)

abbrev closed_of : ConnectionPool → Bool
closed_of p = p.closed

abbrev conns_of : ConnectionPool → List ℕ
conns_of p = p.conns

step_fresh :
    (u : Usage) (c : ℕ)
    → u.pool.closed ≡ false
    → u.pool.conns ≡ []
    → ((step u (gets (some c))).pool ≡ u.pool)
      × (length (step u (gets (some c))).lent ≡ length u.lent + 1)
unfolding step get
step_fresh u c o e = (ground arith, ground arith)

-- From an open pool with nothing idle any number of further connections can be lent, while the pool
-- stays as it was: no setting bounds them.
pub lent_unbounded :
    (n : ℕ) (u : Usage)
    → u.pool.closed ≡ false
    → u.pool.conns ≡ []
    → (v : Usage) × Run u v × (length v.lent ≡ length u.lent + n) × (v.pool ≡ u.pool)
lent_unbounded zero u o e = (u, here, omega arith, refl)
lent_unbounded (suc n) u o e =
    let (v, r, grown, same) = lent_unbounded n u o e in
    let (kept, more) = step_fresh v n (ap closed_of same ∙ o) (ap conns_of same ∙ e) in
    (step v (gets (some n)), next r (gets (some n)) tt, omega arith, kept ∙ same)
