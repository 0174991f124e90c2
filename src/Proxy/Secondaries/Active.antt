-- ===== src/Proxy/Secondaries/Active.antt =====
-- Which replicas `initMysqlDB` and `initDB` keep, and the total weight that they return.
use dbrwproxy.Prelude.{
  ℕ, ◌+◌, ◌^◌, ◌≤◌, ◌<◌, ◌≡◌, ◌≢◌, subst, ◌∙◌, sym, ap, List, [], ◌∷◌, ◌++◌, append-nil,
  append_assoc, Option, none, some, Bytes, Bool, arith, All, Option-cases, Bool-cases, true, false,
  refl, inl, inr,
}
use dbrwproxy.Prelude.Int.{ℤ, negsuc, leb_ℤ, pos, pos_part, int_add_positive}
use dbrwproxy.Config.{SecondaryDb}
use dbrwproxy.Pool.{ConnectionPool}
use dbrwproxy.Proxy.Choice.{WeightedDb, choose_by_weight}
use dbrwproxy.Proxy.Choice.Shares.{IsWeighed, total, choose_by_weight-total}
use dbrwproxy.Proxy.Secondaries.{
  mysql_dsn, mysql_pool, init_loop, init_mysql_one, init_mysql_db, init_one, init_db,
}

-- The positive weights of the file.
unfoldable pub weights : List SecondaryDb → ℕ
weights [] = 0
weights (s ∷ rest) = pos_part s.weight + weights rest

abbrev pub keep {ℓ} : {A : Type ℓ} → Option A → List A → List A
keep none ds = ds
keep (some d) ds = d ∷ ds

module _ {ℓ} {A : Type ℓ} (one : SecondaryDb → Option (WeightedDb A)) where
  -- What `one` makes of the entries, in order.
  pub kept : List SecondaryDb → List (WeightedDb A)
  kept [] = []
  kept (s ∷ rest) = keep (one s) (kept rest)

  -- `one` keeps an entry's weight, and drops an entry without one.
  abbrev pub KeepsWeight : Type ℓ
  KeepsWeight =
      (s : SecondaryDb) (d : WeightedDb A)
      → one s ≡ some d
      → (d.weight ≡ s.weight) × (0 < pos_part d.weight)

  total_snoc :
      (dbs : List (WeightedDb A)) (d : WeightedDb A)
      → total (dbs ++ (d ∷ [])) ≡ total dbs + pos_part d.weight
  unfolding total
  total_snoc [] d = omega arith
  total_snoc (e ∷ dbs) d = omega (arith, total_snoc dbs d)

  kept-IsWeighed : KeepsWeight → (ss : List SecondaryDb) → All IsWeighed (kept ss)
  unfolding kept
  kept-IsWeighed keeps [] = tt
  kept-IsWeighed keeps (s ∷ rest) = elim (Option-cases (one s)) [
    | inl e ↦ rw e (kept-IsWeighed keeps rest)
    | inr (d, e) ↦ rw e ((keeps s d e).1, kept-IsWeighed keeps rest)
  ]

  total-kept-le : KeepsWeight → (ss : List SecondaryDb) → total (kept ss) ≤ weights ss
  unfolding kept total weights
  total-kept-le keeps [] = omega arith
  total-kept-le keeps (s ∷ rest) = elim (Option-cases (one s)) [
    | inl e ↦ rw e (omega (arith, total-kept-le keeps rest))
    | inr (d, e) ↦
        let (same, positive) = keeps s d e in
        let same' = ap pos_part same in rw e (omega (arith, total-kept-le keeps rest))
  ]

  init_loop-kept :
      KeepsWeight
      → (ss : List SecondaryDb) (dbs : List (WeightedDb A)) → total dbs + weights ss < 2 ^ 63
      → init_loop one ss (dbs, pos (total dbs)) ≡ (dbs ++ kept ss, pos (total (dbs ++ kept ss)))
  unfolding init_loop kept weights
  init_loop-kept keeps [] dbs fits = rw append-nil
  init_loop-kept keeps (s ∷ rest) dbs fits = elim (Option-cases (one s)) [
    | inl e ↦ rw e (init_loop-kept keeps rest dbs (omega arith))
    | inr (d, e) ↦
        let (same, positive) = keeps s d e in
        let same' = ap pos_part same in
        rw (e, int_add_positive (total dbs) d.weight positive (omega arith), ← total_snoc dbs d)
          (init_loop-kept keeps rest (dbs ++ (d ∷ [])) (omega (arith, total_snoc dbs d))
            ∙ rw append_assoc)
  ]

module _ {C : Type 0} (create_connector : Bytes → Option C) where
  mysql_keeps : KeepsWeight (init_mysql_one create_connector)
  unfolding init_mysql_one
  mysql_keeps s d e = ground arith

  mysql_db_kept :
      (ss : List SecondaryDb)
      → weights ss < 2 ^ 63
      → let one = init_mysql_one create_connector in
        (init_mysql_db create_connector ss ≡ (kept one ss, pos (total (kept one ss))))
        × All IsWeighed (kept one ss)
        × (total (kept one ss) < 2 ^ 63)
  unfolding init_mysql_db total
  mysql_db_kept ss fits =
      let one = init_mysql_one create_connector in
      (
        init_loop-kept one mysql_keeps ss [] (omega arith),
        kept-IsWeighed one mysql_keeps ss,
        omega (arith, total-kept-le one mysql_keeps ss),
      )

  -- Which entries of the file are replicas of the proxy: those whose weight is positive and whose DSN is
  -- accepted, in the file's order, each with its name, its weight and a pool of its own.
  pub data Keeps : List SecondaryDb → List (WeightedDb (C × ConnectionPool)) → Type 0 where
    no_more : Keeps [] []
    unweighted :
        {ss : List SecondaryDb} {ds : List (WeightedDb (C × ConnectionPool))} (s : SecondaryDb)
        → pos_part s.weight ≡ 0
        → Keeps ss ds
        → Keeps (s ∷ ss) ds
    refused :
        {ss : List SecondaryDb} {ds : List (WeightedDb (C × ConnectionPool))} (s : SecondaryDb)
        → create_connector (mysql_dsn s) ≡ none
        → Keeps ss ds
        → Keeps (s ∷ ss) ds
    accepted :
        {ss : List SecondaryDb} {ds : List (WeightedDb (C × ConnectionPool))} (s : SecondaryDb)
        (c : C)
        → 0 < pos_part s.weight
        → create_connector (mysql_dsn s) ≡ some c
        → Keeps ss ds
        → Keeps (s ∷ ss) (record { name = s.name; db = (c, mysql_pool s); weight = s.weight } ∷ ds)

  kept-unweighted :
      (s : SecondaryDb) → leb_ℤ s.weight (pos 0) ≡ true → init_mysql_one create_connector s ≡ none
  unfolding init_mysql_one
  kept-unweighted s h = rw h refl

  kept-refused :
      (s : SecondaryDb)
      → create_connector (mysql_dsn s) ≡ none
      → init_mysql_one create_connector s ≡ none
  unfolding init_mysql_one
  kept-refused s h = ground arith

  kept-accepted :
      (s : SecondaryDb) (c : C)
      → leb_ℤ s.weight (pos 0) ≡ false
      → create_connector (mysql_dsn s) ≡ some c
      → init_mysql_one create_connector s
        ≡ some (record { name = s.name; db = (c, mysql_pool s); weight = s.weight })
  unfolding init_mysql_one
  kept-accepted s c h e = rw (h, e) refl

  not_positive : (w : ℤ) → leb_ℤ w (pos 0) ≡ true → pos_part w ≡ 0
  not_positive (pos n) h = ground arith
  not_positive (negsuc n) h = refl

  is_positive : (w : ℤ) → leb_ℤ w (pos 0) ≡ false → 0 < pos_part w
  is_positive (pos n) h = ground arith
  is_positive (negsuc n) h = ground arith

  kept-Keeps : (ss : List SecondaryDb) → Keeps ss (kept (init_mysql_one create_connector) ss)
  unfolding kept
  kept-Keeps [] = no_more
  kept-Keeps (s ∷ ss) =
      let rest = kept-Keeps ss in
      elim (Bool-cases (leb_ℤ s.weight (pos 0))) [
        | inl h ↦ rw (kept-unweighted s h) (unweighted s (not_positive s.weight h) rest)
        | inr h ↦ elim (Option-cases (create_connector (mysql_dsn s))) [
          | inl e ↦ rw (kept-refused s e) (refused s e rest)
          | inr (c, e) ↦ rw (kept-accepted s c h e) (accepted s c (is_positive s.weight h) e rest)
        ]
      ]

  -- Where the positive weights of the file sum to less than 2 ^ 63, `initMysqlDB` returns exactly the
  -- replicas with a positive weight and an accepted DSN, in the file's order, each under its own name
  -- and weight, and the sum of their weights, which are positive and sum to less than 2 ^ 63.
  pub init_mysql_db-kept :
      (ss : List SecondaryDb)
      → weights ss < 2 ^ 63
      → let (dbs, sum) = init_mysql_db create_connector ss in
        Keeps ss dbs × (sum ≡ pos (total dbs)) × All IsWeighed dbs × (total dbs < 2 ^ 63)
  init_mysql_db-kept ss fits =
      let (same, weighed, small) = mysql_db_kept ss fits in
      subst (λ r. Keeps ss r.0 × (r.1 ≡ pos (total r.0)) × All IsWeighed r.0 × (total r.0 < 2 ^ 63))
        (sym same) (kept-Keeps ss, refl, weighed, small)

  -- Where the positive weights of the file sum to less than 2 ^ 63 and `initMysqlDB` kept a replica,
  -- `chooseByWeight` on what it returned chooses one of the replicas and does not panic, whatever number
  -- below its positive argument rand.Intn draws.
  pub choose_after_init :
      (intn : ℕ → ℕ) (ss : List SecondaryDb)
      → ((n : ℕ) → 0 < n → intn n < n)
      → weights ss < 2 ^ 63
      → (init_mysql_db create_connector ss).0 ≢ []
      → let (dbs, sum) = init_mysql_db create_connector ss in
        (front : List (WeightedDb (C × ConnectionPool))) × (d : WeightedDb (C × ConnectionPool))
        × (back : List (WeightedDb (C × ConnectionPool))) × (dbs ≡ front ++ (d ∷ back))
        × (choose_by_weight intn sum dbs ≡ some d.db)
  choose_after_init intn ss below fits active =
      let (same, weighed, small) = mysql_db_kept ss fits in
      let one = init_mysql_one create_connector in
      subst
        (λ r.
          r.0 ≢ []
          → (front : List (WeightedDb (C × ConnectionPool))) × (d : WeightedDb (C × ConnectionPool))
            × (back : List (WeightedDb (C × ConnectionPool))) × (r.0 ≡ front ++ (d ∷ back))
            × (choose_by_weight intn r.1 r.0 ≡ some d.db))
        (sym same)
        (λ some_db.
          let (front, d, back, e, lo, hi, chosen) =
            choose_by_weight-total intn (kept one ss) below weighed small some_db in
          (front, d, back, e, chosen))
        active

module _ (opens : Bytes → Bool) where
  postgres_keeps : KeepsWeight (init_one opens)
  unfolding init_one
  postgres_keeps s d e = ground arith

  -- Where the positive weights of the file sum to less than 2 ^ 63, `initDB` returns the replicas
  -- with a positive weight and a source that sqlx.Open accepts, in the file's order, each under its
  -- own weight, and the sum of their weights.
  pub init_db-kept :
      (ss : List SecondaryDb)
      → weights ss < 2 ^ 63
      → let one = init_one opens in
        (init_db opens ss ≡ (kept one ss, pos (total (kept one ss))))
        × All IsWeighed (kept one ss)
        × (total (kept one ss) < 2 ^ 63)
  unfolding init_db total
  init_db-kept ss fits =
      let one = init_one opens in
      (
        init_loop-kept one postgres_keeps ss [] (omega arith),
        kept-IsWeighed one postgres_keeps ss,
        omega (arith, total-kept-le one postgres_keeps ss),
      )
