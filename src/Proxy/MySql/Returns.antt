-- ===== src/Proxy/MySql/Returns.antt =====
-- When `delegateSelect` of proxy/mysql.go returns.
use dbrwproxy.Prelude.{
  ℕ, zero, suc, ◌^◌, ◌<◌, ◌≡◌, ◌≢◌, refl, ap, subst, ◌∙◌, Bytes, Bool, not, ◌||◌, Bool-cases, inl,
  inr, Option, some, List, [], ◌∷◌, ◌++◌, All, true, length, get_elem?, arith,
}
use dbrwproxy.Prelude.Int.{pos}
use dbrwproxy.Pool.{ConnectionPool, Got, PoolError, ok, err, get}
use dbrwproxy.Proxy.Choice.{WeightedDb, choose_by_weight}
use dbrwproxy.Proxy.Choice.Shares.{IsWeighed, total, choose_by_weight-total}
use dbrwproxy.Proxy.Statements.{match_select}
use dbrwproxy.Proxy.MySql.Routing.{query_text-in_range}
use dbrwproxy.Proxy.MySql.{
  Session, Round, Text, not_query, query, out_of_range, served, Delegated, query_text, answer,
  run_on, delegate_read, delegate_text, delegate_select,
}

-- The call returns.
abbrev pub Returns : Delegated → Type 0
Returns d = (t : Session) × (flag : Bool) × (e : Option PoolError) × (d ≡ some (t, flag, e))

-- Each replica has its pool in the store.
abbrev pub Stored : List ConnectionPool → WeightedDb ℕ → Type 0
Stored pools d = d.db < length pools

-- What `initMysqlDB` sets up: replicas with positive weights, their sum, and a pool for each.
pub record Ready (s : Session) : Type 0 where
  pub active : s.proxy.dbs ≢ []
  pub weighed : All IsWeighed s.proxy.dbs
  pub summed : s.proxy.total_weight ≡ pos (total s.proxy.dbs)
  pub small : total s.proxy.dbs < 2 ^ 63
  pub stored : All (Stored s.pools) s.proxy.dbs

middle-Stored :
    (pools : List ConnectionPool) (front : List (WeightedDb ℕ)) (d : WeightedDb ℕ)
    (back : List (WeightedDb ℕ))
    → All (Stored pools) (front ++ (d ∷ back))
    → Stored pools d
middle-Stored pools [] d back (h, _) = h
middle-Stored pools (c ∷ front) d back (_, hs) = middle-Stored pools front d back hs

get_elem?_in :
    (i : ℕ) (ps : List ConnectionPool)
    → i < length ps
    → (p : ConnectionPool) × (get_elem? ps i ≡ some p)
get_elem?_in i [] h = absurd (omega arith)
get_elem?_in zero (p ∷ ps) h = (p, refl)
get_elem?_in (suc i) (p ∷ ps) h = get_elem?_in i ps (omega arith)

answer-Returns :
    (s : Session) (r : Round) (i : ℕ) (sql : Bytes) (g : ConnectionPool × Got)
    → ((c : ℕ) (text : Bytes) → r.serves c text ≡ true)
    → Returns (answer s r i sql g)
unfolding answer served
answer-Returns s r i sql (q, err e) serves = (_, _, _, refl)
answer-Returns s r i sql (q, ok c) serves = rw (serves c sql) (_, _, _, refl)

read-Returns :
    (s : Session) (r : Round) (sql : Bytes) (i : ℕ)
    → i < length s.pools
    → ((c : ℕ) (text : Bytes) → r.serves c text ≡ true)
    → Returns (delegate_read s r sql (some i))
unfolding delegate_read run_on
read-Returns s r sql i h serves =
    let (p, e) = get_elem?_in i s.pools h in rw e (answer-Returns s r i sql (get p r.dial) serves)

text-Returns :
    (s : Session) (r : Round) (text : Text)
    → text ≢ out_of_range
    → Ready s
    → ((n : ℕ) → 0 < n → r.intn n < n)
    → ((c : ℕ) (sql : Bytes) → r.serves c sql ≡ true)
    → Returns (delegate_text s r text)
unfolding delegate_text
text-Returns s r out_of_range inside ready below serves = absurd (inside refl)
text-Returns s r not_query inside ready below serves = (_, _, _, refl)
text-Returns s r (query sql) inside ready below serves =
    elim (Bool-cases (s.proxy.in_trans || not (match_select sql))) [
      | inl main ↦ rw main (_, _, _, refl)
      | inr replica ↦
          let (front, d, back, same, lo, hi, chosen) =
            choose_by_weight-total r.intn s.proxy.dbs below ready.weighed ready.small
              ready.active in
          let chosen' : choose_by_weight r.intn s.proxy.total_weight s.proxy.dbs ≡ some d.db =
            ap (λ w. choose_by_weight r.intn w s.proxy.dbs) ready.summed ∙ chosen in
          rw (replica, chosen')
            (read-Returns s r sql d.db
              (middle-Stored s.pools front d back (subst (All (Stored s.pools)) same ready.stored))
              serves)
    ]

-- On a session set up with at least one replica, positive weights and their sum below 2 ^ 63, and a
-- pool for each replica, and where `writeDataRow` returns for every connection and statement,
-- `delegateSelect` returns on every chunk, also a short one: neither its look at the chunk nor the
-- choice of a replica panics, whatever number below its positive argument rand.Intn draws and whether
-- or not the pool can connect.
pub delegate_select-Returns :
    (s : Session) (r : Round) (buffer : Bytes)
    → Ready s
    → ((n : ℕ) → 0 < n → r.intn n < n)
    → ((c : ℕ) (sql : Bytes) → r.serves c sql ≡ true)
    → Returns (delegate_select s r buffer)
unfolding delegate_select
delegate_select-Returns s r buffer ready below serves =
    text-Returns s r (query_text buffer) (query_text-in_range buffer) ready below serves
