-- ===== src/Prelude/Decimal.antt =====
-- Numbers in decimal, as fmt's %d and strconv.Itoa write them.
use dbrwproxy.Prelude.{
  ℕ, zero, suc, ◌+◌, ◌/◌, ◌%◌, ◌≤◌, ◌≡◌, refl, [], ◌∷◌, ◌++◌, Bytes, codes, ltb, arith,
  if◌then◌else◌, All, All-append,
}
use dbrwproxy.Prelude.Int.{ℤ, pos, negsuc}

-- The digits of `n`; each digit takes one round.
unfoldable pub digits : ℕ → ℕ → Bytes
digits zero n = []
digits (suc fuel) n =
    let front = digits fuel (n / 10) in
    if ltb n 10 then (48 + n) ∷ [] else front ++ ((48 + n % 10) ∷ [])

unfoldable pub itoa : ℤ → Bytes
unfolding digits
itoa (pos n) = digits (suc n) n
itoa (negsuc n) = 45 ∷ digits (suc (suc n)) (suc n)

abbrev pub IsDigit : ℕ → Type 0
IsDigit c = (48 ≤ c) × (c ≤ 57)

pub digits-IsDigit : (fuel n : ℕ) → All IsDigit (digits fuel n)
unfolding digits
digits-IsDigit zero n = tt
digits-IsDigit (suc fuel) n = ground (
  arith,
  digits-IsDigit fuel (n / 10),
  All-append IsDigit (digits fuel (n / 10)) ((48 + n % 10) ∷ []),
)

itoa_runs : itoa (negsuc 3305) ≡ codes "-3306"
unfolding itoa
itoa_runs = refl
