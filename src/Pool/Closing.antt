-- ===== src/Pool/Closing.antt =====
-- `Close` of pool/connectionPool.go: what it closes, and what it leaves in the channel.
use dbrwproxy.Prelude.{
  ℕ, ◌+◌, ◌/◌, ◌≤◌, ◌≡◌, refl, ◌∙◌, true, false, List, [], ◌∷◌, ◌++◌, arith, length, ap,
}
use dbrwproxy.Pool.{ConnectionPool, get, put, close, close_loop}
use dbrwproxy.Pool.Ownership.{
  count, Accounted, Run-Accounted, step-Accounted, Usage, Call, gets, puts, closes, step, Run, here,
  next,
}

close_loop-append : (i : ℕ) (xs : List ℕ) → (close_loop i xs).1 ++ (close_loop i xs).0 ≡ xs
unfolding close_loop
close_loop-append i [] = refl
close_loop-append i (c ∷ rest) = ground (arith, close_loop-append (i + 1) rest)

length-close_loop :
    (i : ℕ) (xs : List ℕ) → i ≤ length xs + 1 → length (close_loop i xs).0 ≡ (length xs + i) / 2
unfolding close_loop
length-close_loop i [] h = omega arith
length-close_loop i (c ∷ rest) h = ground (arith, length-close_loop (i + 1) rest)

-- `Close` of an open pool closes connections from the oldest on, and leaves the newer half (rounded
-- down) in the channel: the loop's bound shrinks while its counter grows.
pub close_halves :
    (p : ConnectionPool)
    → p.closed ≡ false
    → ((close p).1 ++ (close p).0.conns ≡ p.conns)
      × (length (close p).0.conns ≡ length p.conns / 2)
      × ((close p).0.closed ≡ true)
unfolding close
close_halves p h = (
  ground (arith, close_loop-append 0 p.conns),
  ground (arith, length-close_loop 0 p.conns),
  ground arith,
)

-- On a closed pool no call changes the channel.
step-closed :
    (u : Usage) (c : Call)
    → u.pool.closed ≡ true
    → ((step u c).pool.closed ≡ true)
      × ((step u c).pool.conns ≡ u.pool.conns)
      × ((step u c).made ≡ u.made)
unfolding step get put close
step-closed u (gets dial) h = ground arith
step-closed u (puts c) h = ground arith
step-closed u closes h = ground arith

Run-closed :
    {u v : Usage}
    → u.pool.closed ≡ true
    → Run u v
    → (v.pool.closed ≡ true) × (v.pool.conns ≡ u.pool.conns) × (v.made ≡ u.made)
Run-closed h here = (h, refl, refl)
Run-closed h (next {v} r c a) =
    let (shut, same, made) = Run-closed h r in
    let (shut', same', made') = step-closed v c shut in (shut', same' ∙ same, made' ∙ made)

-- No connection stands in both lists, or twice in one.
abbrev pub Apart : List ℕ → List ℕ → Type 0
Apart xs ys = (a : ℕ) → count a xs + count a ys ≤ 1

-- Where the connections are accounted for and none was made twice, what `Close` of an open pool leaves
-- in the channel, the newer half (rounded down) of what was idle, stays there whatever calls of Get, Put and
-- Close follow, and none of it is ever closed: the channel and the closed connections stay apart.
pub close_leaks :
    (u : Usage) {v : Usage}
    → u.pool.closed ≡ false
    → Accounted u
    → ((a : ℕ) → count a u.made ≤ 1)
    → Run (step u closes) v
    → (older : List ℕ) × (older ++ v.pool.conns ≡ u.pool.conns)
      × (length v.pool.conns ≡ length u.pool.conns / 2)
      × Apart v.pool.conns v.shut
unfolding step
close_leaks u {v} h accounted once r =
    let (part, half, shut) = close_halves u.pool h in
    let (_, same, made) = Run-closed shut r in
    let after = Run-Accounted (step-Accounted u closes tt accounted) r in
    (
      (close u.pool).1,
      ap (λ xs. (close u.pool).1 ++ xs) same ∙ part,
      ap {B = ℕ} length same ∙ half,
      λ a. omega (arith, after.balance a, once a, ap (count a) made),
    )
