-- ===== src/Mysql/LengthEncoded/Bounds.antt =====
-- How far reading and skipping a length-encoded string of mysql/utils.go go.
use dbrwproxy.Prelude.{
  ℕ, ◌+◌, ◌≤◌, ◌≡◌, refl, Bytes, [], ◌∷◌, Bool, Option, none, some, length, length-take,
  length-drop, drop, arith, ◌≢◌, zero, suc, take, take-append-drop, ◌++◌, ◌∙◌, ap, sym, ◌<◌, ◌^◌,
  true, false, ◌⊎◌, inl, inr, Bool-cases, ltb, ltb→le, ltb→lt,
}
use dbrwproxy.Prelude.Int.{ℤ, pos, int_add, int_add_pos}
use dbrwproxy.Mysql.Errors.{Result, ok, err, eof, >>=-middle}
use dbrwproxy.Mysql.Integers.{from_bytes_cases}
use dbrwproxy.Mysql.LengthEncoded.{
  LengthInteger, read_length_encoded_integer, behind, read_length_encoded_string, string_of,
  skip_length_encoded_string, skip_of, slice, sliced, to_int,
}

sliced-end : (n m : ℤ) (o : Option Bytes) (s : Bytes) (z : Bool) → sliced n o ≡ ok (s, z, m) → n ≡ m
sliced-end n m none s z h = cc
sliced-end n m (some t) s z h = cc

skip_of-string_of :
    (b : Bytes) (l : LengthInteger) (s : Bytes) (z : Bool) (n : ℤ)
    → string_of b l ≡ ok (s, z, n)
    → skip_of b l ≡ ok n
unfolding string_of skip_of
skip_of-string_of b (num, is_null, k) s z n h =
    let end = int_add (pos k) (to_int num) in ground (arith, sliced-end end n (slice b k end) s z)

-- Where `readLengthEncodedString` succeeds, `skipLengthEncodedString` skips as many bytes.
pub skip-read_string :
    (b s : Bytes) (z : Bool) (n : ℤ)
    → read_length_encoded_string b ≡ ok (s, z, n)
    → skip_length_encoded_string b ≡ ok n
unfolding read_length_encoded_string skip_length_encoded_string
skip-read_string b s z n h =
    let (l, e, f) = >>=-middle (read_length_encoded_integer b) (string_of b) h in
    rw e (skip_of-string_of b l s z n f)

read_integer-bounds :
    (b : Bytes) (num n : ℕ) (z : Bool)
    → read_length_encoded_integer b ≡ ok (num, z, n)
    → b ≢ []
    → n ≤ length b
unfolding read_length_encoded_integer behind
read_integer-bounds [] num n z h ne = absurd (ne refl)
read_integer-bounds (c ∷ b) num n z h ne =
    ground (arith, from_bytes_cases 2 b, from_bytes_cases 3 b, from_bytes_cases 8 b)

read_null : (b : Bytes) (num k : ℕ) → read_length_encoded_integer b ≡ ok (num, true, k) → num ≡ 0
unfolding read_length_encoded_integer behind
read_null [] num k h = ground arith
read_null (c ∷ b) num k h =
    ground (arith, from_bytes_cases 2 b, from_bytes_cases 3 b, from_bytes_cases 8 b)

-- The input holds `num` bytes behind the first `k`, and these are what is returned.
abbrev pub Found : Bytes → ℕ → ℕ → Bool → Result (Bytes × Bool × ℤ) → Type 0
Found b num k is_null r =
    (front : Bytes) × (s : Bytes) × (back : Bytes) × (b ≡ front ++ (s ++ back))
    × (length front ≡ k)
    × (length s ≡ num)
    × (r ≡ ok (s, is_null, pos (k + num)))

-- The input ends before that.
abbrev pub Short : Bytes → ℕ → ℕ → Result (Bytes × Bool × ℤ) → Type 0
Short b num k r = (length b < k + num) × (r ≡ err eof)

found :
    (b : Bytes) (num k : ℕ) (is_null : Bool)
    → k + num ≤ length b
    → string_of b (num, is_null, k) ≡ ok (take num (drop k b), is_null, pos (k + num))
    → Found b num k is_null (string_of b (num, is_null, k))
found b num k is_null room e =
    let rest = drop k b in
    (
      take k b,
      take num rest,
      drop num rest,
      sym (ap (λ xs. take k b ++ xs) (take-append-drop num rest) ∙ take-append-drop k b),
      omega (arith, length-take k b),
      omega (arith, length-take num rest, length-drop k b),
      e,
    )

string_of-found :
    (b : Bytes) (num k : ℕ) (is_null : Bool)
    → (is_null ≡ true → num ≡ 0)
    → k + num < 2 ^ 63
    → k + num ≤ length b
    → string_of b (num, is_null, k) ≡ ok (take num (drop k b), is_null, pos (k + num))
unfolding string_of
string_of-found b zero k is_null null small room = ground arith
string_of-found b (suc n) k true null small room = absurd (omega (arith, null refl))
string_of-found b (suc n) k false null small room = ground (arith, int_add_pos k (suc n) small)

string_of-short :
    (b : Bytes) (num k : ℕ) (is_null : Bool)
    → k ≤ length b
    → k + num < 2 ^ 63
    → length b < k + num
    → string_of b (num, is_null, k) ≡ err eof
unfolding string_of
string_of-short b num k is_null le small short = ground (arith, int_add_pos k num small)

-- For a non-empty input whose announced length `num`, with the `k` bytes that announce it, is below
-- 2 ^ 63, `readLengthEncodedString` does not panic. Either the input holds as many bytes behind the
-- first `k`, and it returns exactly them, whether the string is NULL, and the count of both parts; or
-- the input is shorter, and it returns io.EOF.
pub read_string_bounds :
    (b : Bytes) (num k : ℕ) (is_null : Bool)
    → b ≢ []
    → read_length_encoded_integer b ≡ ok (num, is_null, k)
    → k + num < 2 ^ 63
    → Found b num k is_null (read_length_encoded_string b)
      ⊎ Short b num k (read_length_encoded_string b)
unfolding read_length_encoded_string
read_string_bounds b num k is_null ne e small =
    let le = read_integer-bounds b num k is_null e ne in
    let null : is_null ≡ true → num ≡ 0 = λ t. read_null b num k (e ∙ ap (λ z. ok (num, z, k)) t) in
    elim (Bool-cases (ltb (length b) (k + num))) [
      | inl h ↦
          let short = ltb→lt (length b) (k + num) h in
          rw e (inr (short, string_of-short b num k is_null le small short))
      | inr h ↦
          let room = ltb→le (length b) (k + num) h in
          rw e (inl (found b num k is_null room (string_of-found b num k is_null null small room)))
    ]
