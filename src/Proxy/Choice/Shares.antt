-- ===== src/Proxy/Choice/Shares.antt =====
-- Each replica's share of the numbers that `chooseByWeight` draws.
use dbrwproxy.Prelude.{
  ℕ, ◌+◌, ◌-◌, ◌^◌, ◌≤◌, ◌<◌, ◌≡◌, refl, List, [], ◌∷◌, ◌++◌, some, arith, ltb, All, ◌≢◌, ap,
  ltb→lt, ltb→le, Bool-cases, inl, inr, subst, sym,
}
use dbrwproxy.Prelude.Int.{pos, pos_part, int_add_positive}
use dbrwproxy.Proxy.Choice.{WeightedDb, choose_loop, choose_by_weight}

module _ {ℓ} {A : Type ℓ} where
  abbrev pub IsWeighed : WeightedDb A → Type 0
  IsWeighed d = 0 < pos_part d.weight

  unfoldable pub total : List (WeightedDb A) → ℕ
  total [] = 0
  total (d ∷ ds) = pos_part d.weight + total ds

  pub total-append : (xs ys : List (WeightedDb A)) → total (xs ++ ys) ≡ total xs + total ys
  unfolding total
  total-append [] ys = omega arith
  total-append (x ∷ xs) ys = omega (arith, total-append xs ys)

  choose_loop-share :
      (front : List (WeightedDb A)) (d : WeightedDb A) (back : List (WeightedDb A)) (r current : ℕ)
      → All IsWeighed (front ++ (d ∷ back))
      → current + total (front ++ (d ∷ back)) < 2 ^ 63
      → current + total front ≤ r
      → r < current + total front + pos_part d.weight
      → choose_loop (pos r) (pos current) (front ++ (d ∷ back)) ≡ some d.db
  unfolding choose_loop total
  choose_loop-share [] d back r current ws fits lo hi =
      ground (arith, int_add_positive current d.weight)
  choose_loop-share (e ∷ front) d back r current ws fits lo hi = ground (
    arith,
    int_add_positive current e.weight ws.0,
    choose_loop-share front d back r (current + pos_part e.weight) ws.1,
    total-append front (d ∷ back),
  )

  total_head :
      (d : WeightedDb A) (ds : List (WeightedDb A)) → total (d ∷ ds) ≡ pos_part d.weight + total ds
  unfolding total
  total_head d ds = refl

  total-pos : (dbs : List (WeightedDb A)) → All IsWeighed dbs → dbs ≢ [] → 0 < total dbs
  unfolding total
  total-pos [] ws some_db = absurd (some_db refl)
  total-pos (d ∷ dbs) ws some_db = omega arith

  -- If the number drawn lies in the interval of a replica's weight, laid out behind the weights of
  -- the replicas before it, that replica is chosen. The weights are positive, and their sum, the
  -- proxy's `totalWeight`, is below 2 ^ 63.
  pub choose_by_weight-share :
      (intn : ℕ → ℕ) (front : List (WeightedDb A)) (d : WeightedDb A) (back : List (WeightedDb A))
      → let dbs = front ++ (d ∷ back) in
        All IsWeighed dbs
        → total dbs < 2 ^ 63
        → total front ≤ intn (total dbs)
        → intn (total dbs) < total front + pos_part d.weight
        → choose_by_weight intn (pos (total dbs)) dbs ≡ some d.db
  unfolding choose_by_weight
  choose_by_weight-share intn front d back ws fits lo hi = ground (
    arith,
    choose_loop-share front d back (intn (total (front ++ (d ∷ back)))) 0 ws,
    total-append front (d ∷ back),
    total_head d back,
  )

  share_at :
      (intn : ℕ → ℕ) (front : List (WeightedDb A)) (d : WeightedDb A) (back : List (WeightedDb A))
      (dbs : List (WeightedDb A))
      → dbs ≡ front ++ (d ∷ back)
      → All IsWeighed dbs
      → total dbs < 2 ^ 63
      → total front ≤ intn (total dbs)
      → intn (total dbs) < total front + pos_part d.weight
      → choose_by_weight intn (pos (total dbs)) dbs ≡ some d.db
  share_at intn front d back dbs same =
      subst
        (λ l.
          All IsWeighed l
          → total l < 2 ^ 63
          → total front ≤ intn (total l)
          → intn (total l) < total front + pos_part d.weight
          → choose_by_weight intn (pos (total l)) l ≡ some d.db)
        (sym same) (choose_by_weight-share intn front d back)

  locate :
      (dbs : List (WeightedDb A)) (r : ℕ)
      → r < total dbs
      → (front : List (WeightedDb A)) × (d : WeightedDb A) × (back : List (WeightedDb A)) × (dbs
          ≡ front ++ (d ∷ back))
        × (total front ≤ r)
        × (r < total front + pos_part d.weight)
  unfolding total
  locate [] r h = absurd (omega arith)
  locate (e ∷ dbs) r h = elim (Bool-cases (ltb r (pos_part e.weight))) [
    | inl here ↦ ([], e, dbs, refl, omega arith, omega (arith, ltb→lt r (pos_part e.weight) here))
    | inr later ↦
        let past = ltb→le r (pos_part e.weight) later in
        let (front, d, back, same, lo, hi) = locate dbs (r - pos_part e.weight) (omega arith) in
        (e ∷ front, d, back, ap (◌∷◌ e) same, omega arith, omega arith)
  ]

  -- Where there is at least one replica, every weight is positive, and their sum, which is the proxy's
  -- `totalWeight`, is below 2 ^ 63: whatever number below its positive argument rand.Intn draws, it lies
  -- in one replica's interval, and that replica is chosen, without a panic or the way out to `dbs[0]`.
  pub choose_by_weight-total :
      (intn : ℕ → ℕ) (dbs : List (WeightedDb A))
      → ((n : ℕ) → 0 < n → intn n < n)
      → All IsWeighed dbs
      → total dbs < 2 ^ 63
      → dbs ≢ []
      → (front : List (WeightedDb A)) × (d : WeightedDb A) × (back : List (WeightedDb A)) × (dbs
          ≡ front ++ (d ∷ back))
        × (total front ≤ intn (total dbs))
        × (intn (total dbs) < total front + pos_part d.weight)
        × (choose_by_weight intn (pos (total dbs)) dbs ≡ some d.db)
  choose_by_weight-total intn dbs below ws fits some_db =
      let (front, d, back, same, lo, hi) =
        locate dbs (intn (total dbs)) (below (total dbs) (total-pos dbs ws some_db)) in
      (front, d, back, same, lo, hi, share_at intn front d back dbs same ws fits lo hi)
