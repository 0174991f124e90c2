-- ===== src/Pool/Ownership.antt =====
-- Where the connections made by the pool of pool/connectionPool.go are: idle, lent or closed.
use dbrwproxy.Prelude.{
  ℕ, ◌+◌, ◌≤◌, ◌≡◌, refl, List, [], ◌∷◌, ◌++◌, Option, none, some, arith, ◌==◌, length,
  length-append, if◌then◌else◌,
}
use dbrwproxy.Pool.{ConnectionPool, Got, ok, err, get, put, close, close_loop}

abbrev pub count : ℕ → List ℕ → ℕ
count a [] = 0
count a (x ∷ xs) = (if x == a then 1 else 0) + count a xs

pub count-append :
    (c : ℕ) (front back : List ℕ) → count c (front ++ back) ≡ count c front + count c back
count-append c [] back = omega arith
count-append c (d ∷ front) back = omega (count-append c front back, arith)

-- The first occurrence goes.
unfoldable pub remove : ℕ → List ℕ → List ℕ
remove a [] = []
remove a (x ∷ xs) = if x == a then xs else x ∷ remove a xs

-- `a` stands in the list.
abbrev pub Holds : ℕ → List ℕ → Type 0
Holds a xs = 1 ≤ count a xs

pub count-remove :
    (a c : ℕ) (xs : List ℕ)
    → Holds c xs
    → count a (remove c xs) + (if c == a then 1 else 0) ≡ count a xs
unfolding remove
count-remove a c [] h = absurd (omega arith)
count-remove a c (x ∷ xs) h = ground (arith, count-remove a c xs)

-- The pool with what is outside it: who was lent a connection, and which were closed or made.
pub record Usage : Type 0 where
  pub pool : ConnectionPool
  pub lent : List ℕ
  pub shut : List ℕ
  pub made : List ℕ

-- The calls that the program makes: it never calls `Open`, which has the theorems of Pool/Opening, and
-- the steps of the reaper, which `Open` would start, are in Pool/Reaper.
pub data Call : Type 0 where
  gets : Option ℕ → Call
  puts : ℕ → Call
  closes : Call

-- The connection that a `get` returned is lent; it is new if none was idle.
abbrev pub after_get : Usage → List ℕ → ConnectionPool → Got → Usage
after_get u idle p (err e) = record u { pool = p }
after_get u [] p (ok c) = record u { pool = p; lent = c ∷ u.lent; made = c ∷ u.made }
after_get u (i ∷ is) p (ok c) = record u { pool = p; lent = c ∷ u.lent }

unfoldable pub step : Usage → Call → Usage
step u (gets dial) = let (p, r) = get u.pool dial in after_get u u.pool.conns p r
step u (puts c) =
    let (p, gone) = put u.pool c in
    record u { pool = p; lent = remove c u.lent; shut = gone ++ u.shut }
step u closes = let (p, gone) = close u.pool in record u { pool = p; shut = gone ++ u.shut }

-- What the program does: it puts back what it was lent.
abbrev pub Allowed : Usage → Call → Type 0
Allowed u (gets dial) = Unit
Allowed u (puts c) = Holds c u.lent
Allowed u closes = Unit

pub data Run (u : Usage) : Usage → Type 0 where
  here : Run u u
  next : {v : Usage} → Run u v → (c : Call) → Allowed v c → Run u (step v c)

-- Each made connection is in one of the three places, as often as it was made, and the channel
-- keeps to its capacity.
pub record Accounted (u : Usage) : Type 0 where
  pub balance : (a : ℕ) → count a u.made ≡ count a u.pool.conns + count a u.lent + count a u.shut
  pub bounded : length u.pool.conns ≤ u.pool.max_conns

close_loop-count :
    (a i : ℕ) (xs : List ℕ) → count a (close_loop i xs).0 + count a (close_loop i xs).1 ≡ count a xs
unfolding close_loop
close_loop-count a i [] = refl
close_loop-count a i (c ∷ rest) = ground (arith, close_loop-count a (i + 1) rest)

close_loop-length-le : (i : ℕ) (xs : List ℕ) → length (close_loop i xs).0 ≤ length xs
unfolding close_loop
close_loop-length-le i [] = omega arith
close_loop-length-le i (c ∷ rest) = ground (arith, close_loop-length-le (i + 1) rest)

get-Accounted :
    (u : Usage) (xs : List ℕ) (dial : Option ℕ)
    → u.pool.conns ≡ xs
    → Accounted u
    → Accounted (after_get u xs (get u.pool dial).0 (get u.pool dial).1)
unfolding get
get-Accounted u [] none e v = record {
  balance = λ a. ground (arith, v.balance a);
  bounded = ground (arith, v.bounded);
}
get-Accounted u [] (some c) e v = record {
  balance = λ a. ground (arith, v.balance a);
  bounded = ground (arith, v.bounded);
}
get-Accounted u (x ∷ xs) dial e v = record {
  balance = λ a. ground (arith, v.balance a);
  bounded = ground (arith, v.bounded);
}

put-Accounted : (u : Usage) (c : ℕ) → Holds c u.lent → Accounted u → Accounted (step u (puts c))
unfolding step put
put-Accounted u c h v = record {
  balance = λ a.
      ground (arith, v.balance a, count-remove a c u.lent, count-append a u.pool.conns (c ∷ []));
  bounded = ground (arith, v.bounded, length-append u.pool.conns (c ∷ []));
}

close-Accounted : (u : Usage) → Accounted u → Accounted (step u closes)
unfolding step close
close-Accounted u v = record {
  balance = λ a. ground (
    arith,
    v.balance a,
    close_loop-count a 0 u.pool.conns,
    count-append a (close_loop 0 u.pool.conns).1 u.shut,
  );
  bounded = ground (arith, v.bounded, close_loop-length-le 0 u.pool.conns);
}

pub step-Accounted : (u : Usage) (c : Call) → Allowed u c → Accounted u → Accounted (step u c)
unfolding step
step-Accounted u (gets dial) h v = get-Accounted u u.pool.conns dial refl v
step-Accounted u (puts c) h v = put-Accounted u c h v
step-Accounted u closes h v = close-Accounted u v

-- After any sequence of allowed calls each connection that was ever made is idle in the channel,
-- lent to a session or closed, as often as it was made, and the channel holds at most `maxConns`.
pub Run-Accounted : {u v : Usage} → Accounted u → Run u v → Accounted v
Run-Accounted a here = a
Run-Accounted a (next {v} r c h) = step-Accounted v c h (Run-Accounted a r)
