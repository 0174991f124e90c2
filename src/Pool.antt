-- ===== src/Pool.antt =====
-- pool/connectionPool.go: the pool of connections to one replica.
-- A connection is a number. The buffered channel `conns` is a list, oldest first; its capacity is
-- `max_conns`. `Connect` reaches the network, so its outcome is an argument (`none` is an error),
-- and a call's second result lists the connections that it passed to `conn.Close()`. Each function
-- runs under the pool's mutex; what `reapIdleConns` does outside it is in Pool/Reaper.
pub mod Ownership
pub mod Closing
pub mod Opening
pub mod Reaper
mod Runs
use dbrwproxy.Prelude.{
  ℕ, zero, suc, ◌+◌, ◌-◌, Bool, true, false, List, [], ◌∷◌, ◌++◌, Option, none, some, ltb, length,
  if◌then◌else◌,
}
use dbrwproxy.Prelude.Int.{ℤ}

-- `minConns` and `maxConns` are positive: `initMysqlDB` passes no others.
pub record ConnectionPool : Type 0 where
  pub conns : List ℕ
  pub min_conns : ℕ
  pub max_conns : ℕ
  pub idle_timeout : ℤ
  pub closed : Bool

pub data PoolError : Type 0 where
  pool_closed connect_failed : PoolError

pub data Got : Type 0 where
  ok : ℕ → Got
  err : PoolError → Got

unfoldable pub new_connection_pool : ℕ → ℕ → ℤ → ConnectionPool
new_connection_pool min_conns max_conns idle_timeout = record {
  conns = [];
  min_conns = min_conns;
  max_conns = max_conns;
  idle_timeout = idle_timeout;
  closed = false;
}

-- The `default` branch of the select: nothing is idle.
connect : ConnectionPool → Option ℕ → ConnectionPool × Got
connect p none = (p, err connect_failed)
connect p (some c) = (p, ok c)

pub receive : ConnectionPool → List ℕ → Option ℕ → ConnectionPool × Got
unfolding connect
receive p [] dial = connect p dial
receive p (c ∷ rest) dial = (record p { conns = rest }, ok c)

unfoldable pub get : ConnectionPool → Option ℕ → ConnectionPool × Got
unfolding receive
get p dial = if p.closed then (p, err pool_closed) else receive p p.conns dial

unfoldable pub put : ConnectionPool → ℕ → ConnectionPool × List ℕ
put p c =
    if p.closed
    then (p, c ∷ [])
    else if ltb (length p.conns) p.max_conns
    then (record p { conns = p.conns ++ (c ∷ []) }, [])
    else (p, c ∷ [])

-- `for i := 0; i < len(cp.conns); i++`: the length is read anew in each round.
close_loop : ℕ → List ℕ → List ℕ × List ℕ
close_loop i [] = ([], [])
close_loop i (c ∷ rest) =
    let (left, shut) = close_loop (i + 1) rest in
    if ltb i (length (c ∷ rest)) then (left, c ∷ shut) else (c ∷ rest, [])

unfoldable pub close : ConnectionPool → ConnectionPool × List ℕ
unfolding close_loop
close p =
    let (left, shut) = close_loop 0 p.conns in
    if p.closed then (p, []) else (record p { conns = left; closed = true }, shut)

-- What `Open` comes to. `stuck` is a send on a full channel, which waits with the mutex held.
pub data Opened : Type 0 where
  started : ConnectionPool → Opened
  refused : Opened
  failed : ConnectionPool → Opened
  stuck : ConnectionPool → Opened

-- One round: the connection that `Connect` made goes into the channel, and `more` is the rest.
open_send : (ConnectionPool → Opened) → Option ℕ → ConnectionPool → Opened
open_send more none p = failed p
open_send more (some c) p =
    let next = more (record p { conns = p.conns ++ (c ∷ []) }) in
    if ltb (length p.conns) p.max_conns then next else stuck p

-- The rounds that are left; `dial k` is the outcome of the connection made with k rounds to go.
open_loop : ℕ → (ℕ → Option ℕ) → ConnectionPool → Opened
open_loop zero dial p = started p
open_loop (suc n) dial p = open_send (open_loop n dial) (dial n) p

unfoldable pub open_pool : (ℕ → Option ℕ) → ConnectionPool → Opened
unfolding open_loop open_send
open_pool dial p = if p.closed then refused else open_loop p.min_conns dial p

-- `idleConns` of `reapIdleConns`, read under the mutex; a negative difference means no round.
unfoldable pub idle_conns : ConnectionPool → ℕ
idle_conns p = length p.conns - p.min_conns

-- One round of the loop that follows, outside the mutex. `none` waits on an empty channel.
pub reap_from : ConnectionPool → List ℕ → Option (ConnectionPool × ℕ)
reap_from p [] = none
reap_from p (c ∷ rest) = some (record p { conns = rest }, c)

unfoldable pub reap_one : ConnectionPool → Option (ConnectionPool × ℕ)
unfolding reap_from
reap_one p = reap_from p p.conns

-- The rounds with nothing in between: the pool, and what was closed; `none` waits for ever.
unfoldable pub reap_rounds : ℕ → ConnectionPool → Option (ConnectionPool × List ℕ)
reap_rounds zero p = some (p, [])
reap_rounds (suc n) p = elim (reap_one p) [
  | none ↦ none
  | some (q, c) ↦ elim (reap_rounds n q) [ none ↦ none | some (r, shut) ↦ some (r, c ∷ shut) ]
]
