-- ===== src/Mysql/Dsn/Numbers.antt =====
-- strconv.Atoi of what strconv.Itoa prints.
use dbrwproxy.Prelude.{
  ℕ, zero, suc, ◌+◌, ◌-◌, ◌*◌, ◌/◌, ◌%◌, ◌^◌, ◌<◌, ◌≡◌, ◌≢◌, refl, ap, sym, subst, ◌∙◌, Bytes, [],
  ◌∷◌, ◌++◌, true, false, some, All, ltb, leb, arith, length, length-append, Bool-cases, inl, inr,
  ◌&&◌, some-injective, ltb→lt, lt→ltb, le→leb,
}
use dbrwproxy.Prelude.Int.{ℤ, pos, negsuc}
use dbrwproxy.Prelude.Decimal.{digits, itoa, IsDigit, digits-IsDigit}
use dbrwproxy.Mysql.Dsn.Cutting.{Lacks, differs}
use dbrwproxy.Mysql.Dsn.Text.{digits_value, atoi_digits, atoi}

digits_value-append :
    (m : ℕ) (xs ys : Bytes) (n : ℕ)
    → digits_value m xs ≡ some n
    → digits_value m (xs ++ ys) ≡ digits_value n ys
unfolding digits_value
digits_value-append m [] ys n e = ap (λ k. digits_value k ys) (some-injective m n e)
digits_value-append m (x ∷ xs) ys n e = elim (Bool-cases (leb 48 x && leb x 57)) [
  | inl k ↦ rw k (digits_value-append (m * 10 + (x - 48)) xs ys n (ground (arith, k, e)))
  | inr k ↦ absurd (ground (arith, k, e))
]

digits_value-last : (m d : ℕ) → d < 10 → digits_value m ((48 + d) ∷ []) ≡ some (m * 10 + d)
unfolding digits_value
digits_value-last m d h = ground arith

digits_value-digits : (fuel n : ℕ) → n < fuel → digits_value 0 (digits fuel n) ≡ some n
unfolding digits
digits_value-digits zero n h = absurd (omega arith)
digits_value-digits (suc fuel) n h = elim (Bool-cases (ltb n 10)) [
  | inl k ↦ rw k (digits_value-last 0 n (ltb→lt n 10 k) ∙ ap some (omega arith))
  | inr k ↦
      let front = digits_value-digits fuel (n / 10) (ground (arith, k, h)) in
      rw k (
        digits_value-append 0 (digits fuel (n / 10)) ((48 + n % 10) ∷ []) (n / 10) front
        ∙ digits_value-last (n / 10) (n % 10) (omega arith)
        ∙ ap some (omega arith))
]

length-digits : (fuel n : ℕ) → 0 < length (digits (suc fuel) n)
unfolding digits
length-digits fuel n = elim (Bool-cases (ltb n 10)) [
  | inl k ↦ rw k (omega arith)
  | inr k ↦ rw k (omega (arith, length-append (digits fuel (n / 10)) ((48 + n % 10) ∷ [])))
]

atoi_digits-pos :
    (xs : Bytes) (n : ℕ)
    → 0 < length xs
    → digits_value 0 xs ≡ some n
    → n < 2 ^ 63
    → atoi_digits false xs ≡ some (pos n)
unfolding atoi_digits
atoi_digits-pos [] n h e bound = absurd (omega arith)
atoi_digits-pos (x ∷ xs) n h e bound = rw (atoi_digits, e, lt→ltb n (2 ^ 63) bound) refl

atoi_digits-neg :
    (xs : Bytes) (n : ℕ)
    → 0 < length xs
    → digits_value 0 xs ≡ some (suc n)
    → n < 2 ^ 63
    → atoi_digits true xs ≡ some (negsuc n)
unfolding atoi_digits
atoi_digits-neg [] n h e bound = absurd (omega arith)
atoi_digits-neg (x ∷ xs) n h e bound =
    rw (atoi_digits, e, le→leb (suc n) (2 ^ 63) (omega arith)) refl

atoi-unsigned : (xs : Bytes) → 0 < length xs → All IsDigit xs → atoi xs ≡ atoi_digits false xs
unfolding atoi
atoi-unsigned [] h _ = absurd (omega arith)
atoi-unsigned (x ∷ xs) h ((low, high), _) =
    rw (differs x b'-' (λ e. absurd (omega arith)), differs x b'+' (λ e. absurd (omega arith))) refl

-- An int64.
abbrev pub IsInt64 : ℤ → Type 0
IsInt64 (pos n) = n < 2 ^ 63
IsInt64 (negsuc n) = n < 2 ^ 63

pub atoi-itoa : (n : ℤ) → IsInt64 n → atoi (itoa n) ≡ some n
unfolding itoa atoi
atoi-itoa (pos n) h =
    atoi-unsigned (digits (suc n) n) (length-digits n n) (digits-IsDigit (suc n) n)
    ∙ atoi_digits-pos (digits (suc n) n) n (length-digits n n)
        (digits_value-digits (suc n) n (omega arith)) h
atoi-itoa (negsuc n) h =
    atoi_digits-neg (digits (suc (suc n)) (suc n)) n (length-digits (suc n) (suc n))
      (digits_value-digits (suc (suc n)) (suc n) (omega arith)) h

digits-Lacks : (c : ℕ) → ¬ IsDigit c → (xs : Bytes) → All IsDigit xs → Lacks c xs
digits-Lacks c h [] _ = tt
digits-Lacks c h (x ∷ xs) (d, ds) = (λ e. h (subst IsDigit e d), digits-Lacks c h xs ds)

pub itoa-Lacks : (c : ℕ) → ¬ IsDigit c → c ≢ b'-' → (n : ℤ) → Lacks c (itoa n)
unfolding itoa
itoa-Lacks c h m (pos n) = digits-Lacks c h _ (digits-IsDigit (suc n) n)
itoa-Lacks c h m (negsuc n) =
    (λ e. m (sym e), digits-Lacks c h _ (digits-IsDigit (suc (suc n)) (suc n)))
