-- ===== src/Pool/Reaper.antt =====
-- `reapIdleConns` of pool/connectionPool.go, alone and with other calls between its rounds.
use dbrwproxy.Prelude.{
  ℕ, zero, suc, ◌+◌, ◌-◌, ◌≤◌, ◌<◌, ◌≡◌, refl, false, List, [], ◌∷◌, none, some, arith, length,
  take, drop, take-append-drop, length-drop, min, ◌++◌, subst, sym, ◌∙◌,
}
use dbrwproxy.Pool.{ConnectionPool, idle_conns, reap_from, reap_one, reap_rounds, get, put, receive}
use dbrwproxy.Pool.Ownership.{
  count, Holds, Usage, Call, gets, puts, Allowed, step, Accounted, step-Accounted,
}

reap_rounds_lem :
    (n : ℕ) (p : ConnectionPool) (xs : List ℕ)
    → p.conns ≡ xs
    → n ≤ length xs
    → reap_rounds n p ≡ some (record p { conns = drop n xs }, take n xs)
unfolding reap_rounds reap_one
reap_rounds_lem zero p xs e h = ground arith
reap_rounds_lem (suc n) p [] e h = absurd (omega arith)
reap_rounds_lem (suc n) p (x ∷ xs) e h =
    ground (arith, reap_rounds_lem n (record p { conns = xs }) xs refl)

-- With nothing in between, one pass of the reaper closes the oldest connections, in their order, and
-- leaves the newest `minConns` in the channel, or all where there are no more; it never waits.
pub reap_pass :
    (p : ConnectionPool)
    → (oldest : List ℕ) × (newest : List ℕ) × (oldest ++ newest ≡ p.conns)
      × (length newest ≡ min p.min_conns (length p.conns))
      × (reap_rounds (idle_conns p) p ≡ some (record p { conns = newest }, oldest))
unfolding idle_conns
reap_pass p =
    let n = length p.conns - p.min_conns in
    (
      take n p.conns,
      drop n p.conns,
      take-append-drop n p.conns,
      ground (arith, length-drop n p.conns),
      reap_rounds_lem n p p.conns refl (omega arith),
    )

-- The pool with what is outside it, and the rounds that the reaper still has to make.
pub record Reaping : Type 0 where
  pub usage : Usage
  pub rounds : ℕ

-- A step of the reaper, or a call that the program makes: it puts back only what it was lent.
pub data Step : Reaping → Reaping → Type 0 where
  wakes : (s : Reaping) → s.rounds ≡ 0 → Step s (record s { rounds = idle_conns s.usage.pool })
  reaps :
      (s : Reaping) (n c : ℕ) (q : ConnectionPool)
      → s.rounds ≡ suc n
      → reap_one s.usage.pool ≡ some (q, c)
      → Step s
          (record { usage = record (s.usage) { pool = q; shut = c ∷ s.usage.shut }; rounds = n })
  calls :
      (s : Reaping) (c : Call) → Allowed s.usage c → Step s (record s { usage = step s.usage c })

pub data Reach (s : Reaping) : Reaping → Type 0 where
  here : Reach s s
  next : {t u : Reaping} → Reach s t → Step t u → Reach s u

reap_from-Accounted :
    (u : Usage) (xs : List ℕ) (c : ℕ) (q : ConnectionPool)
    → u.pool.conns ≡ xs
    → reap_from u.pool xs ≡ some (q, c)
    → Accounted u
    → Accounted (record u { pool = q; shut = c ∷ u.shut })
unfolding reap_from
reap_from-Accounted u [] c q e h v = ground arith
reap_from-Accounted u (x ∷ xs) c q e h v = record {
  balance = λ a. ground (arith, v.balance a);
  bounded = ground (arith, v.bounded);
}

-- The accounts of the connections hold with the reaper at work between the calls too.
Reach-Accounted : {s t : Reaping} → Accounted s.usage → Reach s t → Accounted t.usage
unfolding reap_one
Reach-Accounted a here = a
Reach-Accounted a (next r (wakes t h)) = Reach-Accounted a r
Reach-Accounted a (next r (reaps t n c q h e)) =
    reap_from-Accounted t.usage t.usage.pool.conns c q refl e (Reach-Accounted a r)
Reach-Accounted a (next r (calls t c h)) = step-Accounted t.usage c h (Reach-Accounted a r)

-- The usage after a `Get` that found `x` idle.
abbrev lend : Usage → ℕ → List ℕ → Usage
lend u x xs = record u { pool = record (u.pool) { conns = xs }; lent = x ∷ u.lent }

get_idle :
    (u : Usage) (x : ℕ) (xs : List ℕ)
    → u.pool.conns ≡ x ∷ xs
    → u.pool.closed ≡ false
    → step u (gets none) ≡ lend u x xs
unfolding step get receive
get_idle u x xs e o = rw (o, e) refl

put_empty :
    (u : Usage) (c : ℕ)
    → u.pool.conns ≡ []
    → u.pool.closed ≡ false
    → 0 < u.pool.max_conns
    → ((step u (puts c)).pool.conns ≡ c ∷ [])
      × ((step u (puts c)).pool.min_conns ≡ u.pool.min_conns)
unfolding step put
put_empty u c e o h = (ground arith, ground arith)

reap_one_lem :
    (p : ConnectionPool) (c : ℕ) (xs : List ℕ)
    → p.conns ≡ c ∷ xs
    → reap_one p ≡ some (record p { conns = xs }, c)
unfolding reap_one
reap_one_lem p c xs e = ground arith

-- The sessions take every idle connection while the reaper has rounds to make.
drain :
    {r : Reaping} (xs : List ℕ) (s : Reaping) (c : ℕ)
    → Reach r s
    → s.usage.pool.conns ≡ xs
    → s.usage.pool.closed ≡ false
    → 1 ≤ count c xs + count c s.usage.lent
    → (t : Reaping) × Reach r t
      × (t.usage.pool.conns ≡ [])
      × (t.usage.pool.closed ≡ false)
      × (t.rounds ≡ s.rounds)
      × (t.usage.pool.min_conns ≡ s.usage.pool.min_conns)
      × (t.usage.pool.max_conns ≡ s.usage.pool.max_conns)
      × Holds c t.usage.lent
drain [] s c r e o known = (s, r, e, o, refl, refl, refl, omega (arith, known))
drain (x ∷ xs) s c r e o known =
    let t : Reaping = record s { usage = lend s.usage x xs } in
    let moved : Step s t =
      subst (λ u. Step s (record s { usage = u })) (get_idle s.usage x xs e o)
        (calls s (gets none) tt) in
    drain xs t c (next r moved) refl o (omega (arith, known))

-- From an open pool that can hold a connection and has more than `minConns` idle, with the reaper at
-- rest, and for every connection `c` that is idle or lent to a session: a state can be reached in
-- which the reaper still has all the rounds that it counted, `c` is the only idle connection, put back
-- by a session it was lent to, and the reaper's next round closes `c`.
pub reap_race :
    (s : Reaping) (c : ℕ)
    → s.rounds ≡ 0
    → s.usage.pool.closed ≡ false
    → 0 < idle_conns s.usage.pool
    → 0 < s.usage.pool.max_conns
    → 1 ≤ count c s.usage.pool.conns + count c s.usage.lent
    → (t : Reaping) × Reach s t
      × (t.rounds ≡ idle_conns s.usage.pool)
      × (t.usage.pool.conns ≡ c ∷ [])
      × (t.usage.pool.min_conns ≡ s.usage.pool.min_conns)
      × (reap_one t.usage.pool ≡ some (record (t.usage.pool) { conns = [] }, c))
reap_race s c idle o many room known =
    let w : Reaping = record s { rounds = idle_conns s.usage.pool } in
    let (t, r, e, shut, same, least, most, held) =
      drain w.usage.pool.conns w c (next here (wakes s idle)) refl o known in
    let (back, least') = put_empty t.usage c e shut (subst (λ m. 0 < m) (sym most) room) in
    let u : Reaping = record t { usage = step t.usage (puts c) } in
    (
      u,
      next r (calls t (puts c) held),
      same,
      back,
      least' ∙ least,
      reap_one_lem u.usage.pool c [] back,
    )
