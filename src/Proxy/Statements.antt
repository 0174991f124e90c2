-- ===== src/Proxy/Statements.antt =====
-- `initRegexp` of proxy/mysql.go: the three patterns by which both proxies sort statements.
-- A pattern `(?i)^(…)` is a prefix test under Go's case folding, in which `s` also stands for U+017F
-- and `k` for U+212A.
use dbrwproxy.Prelude.{
  ℕ, ◌-◌, ◌≡◌, refl, Bytes, codes, [], ◌∷◌, Bool, true, false, ◌&&◌, ◌||◌, ◌==◌, leb, if◌then◌else◌,
  arith, get_or, drop, ◌≢◌, ◌≤◌, ◌<◌, ◌⊎◌, inl, inr,
}

-- The letter `c` of a pattern, in lower case, against one byte.
fold_byte : ℕ → ℕ → Bool
fold_byte c b = b == c || (leb b'a' c && leb c b'z' && b == c - 32)

-- The bytes that the letter takes at the front of the text, as a count; 0 if it does not match.
fold_width : ℕ → Bytes → ℕ
unfolding fold_byte
fold_width c s =
    if fold_byte c (get_or s 0 256)
    then 1
    else if c == b's' && get_or s 0 256 == 0xc5 && get_or s 1 256 == 0xbf
    then 2
    else if c == b'k' && get_or s 0 256 == 0xe2 && get_or s 1 256 == 0x84 && get_or s 2 256 == 0xaa
    then 3
    else 0

-- The text starts with the pattern.
fold_prefix : Bytes → Bytes → Bool
unfolding fold_width
fold_prefix [] s = true
fold_prefix (c ∷ p) s =
    let width = fold_width c s in
    let rest = fold_prefix p (drop width s) in if width == 0 then false else rest

unfoldable pub match_select : Bytes → Bool
unfolding fold_prefix
match_select sql = fold_prefix (codes "select") sql

unfoldable pub match_tran_begin : Bytes → Bool
unfolding fold_prefix
match_tran_begin sql =
    fold_prefix (codes "begin") sql || fold_prefix (codes "start transaction") sql

unfoldable pub match_tran_end : Bytes → Bool
unfolding fold_prefix
match_tran_end sql = fold_prefix (codes "commit") sql || fold_prefix (codes "rollback") sql

fold_select : match_select (codes "SeLeCT 1") ≡ true
unfolding match_select
fold_select = refl

fold_long_s : match_select (0xc5 ∷ 0xbf ∷ codes "ELECT 1") ≡ true
unfolding match_select
fold_long_s = refl

fold_not_insert : match_select (codes "INSERT") ≡ false
unfolding match_select
fold_not_insert = refl

abbrev IsLetter : ℕ → Type 0
IsLetter c = (b'a' ≤ c) × (c ≤ b'z')

-- Two letters match at one place only if they are the same.
fold_width_inj :
    (c d : ℕ) (s : Bytes)
    → IsLetter c
    → IsLetter d
    → fold_width c s ≢ 0
    → fold_width d s ≢ 0
    → c ≡ d
unfolding fold_width
fold_width_inj c d s hc hd pc pd = ground arith

fold_prefix_head : (c : ℕ) (p s : Bytes) → fold_prefix (c ∷ p) s ≡ true → fold_width c s ≢ 0
unfolding fold_prefix
fold_prefix_head c p s h = ground arith

fold_prefix_tail :
    (c : ℕ) (p s : Bytes)
    → fold_prefix (c ∷ p) s ≡ true
    → fold_prefix p (drop (fold_width c s) s) ≡ true
unfolding fold_prefix
fold_prefix_tail c p s h = ground arith

-- Patterns that differ in their first letter match no common text.
apart :
    (c d : ℕ) (p q s : Bytes)
    → IsLetter c
    → IsLetter d
    → c ≢ d
    → fold_prefix (c ∷ p) s ≡ true
    → fold_prefix (d ∷ q) s ≡ true
    → ⊥
apart c d p q s hc hd ne h k =
    ne (fold_width_inj c d s hc hd (fold_prefix_head c p s h) (fold_prefix_head d q s k))

refute : (b : Bool) → (b ≡ true → ⊥) → b ≡ false
refute true h = absurd (h refl)
refute false h = refl

or_false : (a b : Bool) → a ≡ false → b ≡ false → (a || b) ≡ false
or_false a b h k = ground arith

or_cases : (a b : Bool) → (a || b) ≡ true → (a ≡ true) ⊎ (b ≡ true)
or_cases true b h = inl refl
or_cases false b h = inr h

-- `apart`, read from the first letters of two patterns.
abbrev first : Bytes → ℕ
first p = get_or p 0 0

excludes :
    (p q s : Bytes)
    → IsLetter (first p)
    → IsLetter (first q)
    → first p ≢ first q
    → fold_prefix p s ≡ true
    → fold_prefix q s ≡ false
excludes [] q s hp hq ne h = absurd (omega arith)
excludes (c ∷ p) [] s hp hq ne h = absurd (omega arith)
excludes (c ∷ p) (d ∷ q) s hp hq ne h = refute _ (λ k. apart c d p q s hp hq ne h k)

-- The same of the second letters, behind a common first one.
excludes_second :
    (c : ℕ) (p q s : Bytes)
    → IsLetter (first p)
    → IsLetter (first q)
    → first p ≢ first q
    → fold_prefix (c ∷ p) s ≡ true
    → fold_prefix (c ∷ q) s ≡ false
excludes_second c p q s hp hq ne h = refute _ (λ k. ground (
  arith,
  excludes p q (drop (fold_width c s) s) hp hq ne (fold_prefix_tail c p s h),
  fold_prefix_tail c q s k,
))

-- A statement that matches the first pattern matches neither of the others.
pub select_only :
    (sql : Bytes)
    → match_select sql ≡ true
    → (match_tran_begin sql ≡ false) × (match_tran_end sql ≡ false)
unfolding match_select match_tran_begin match_tran_end
select_only sql h =
    let p = codes "select" in
    (
      or_false (fold_prefix (codes "begin") sql) (fold_prefix (codes "start transaction") sql)
          (excludes p (codes "begin") sql (omega arith) (omega arith) (omega arith) h)
          (excludes_second b's' (codes "elect") (codes "tart transaction") sql (omega arith)
            (omega arith) (omega arith) h),
      or_false (fold_prefix (codes "commit") sql) (fold_prefix (codes "rollback") sql)
          (excludes p (codes "commit") sql (omega arith) (omega arith) (omega arith) h)
          (excludes p (codes "rollback") sql (omega arith) (omega arith) (omega arith) h),
    )

ends_no :
    (p sql : Bytes)
    → IsLetter (first p)
    → first p ≢ b'c'
    → first p ≢ b'r'
    → fold_prefix p sql ≡ true
    → match_tran_end sql ≡ false
unfolding match_tran_end
ends_no p sql l nc nr h =
    or_false (fold_prefix (codes "commit") sql) (fold_prefix (codes "rollback") sql)
      (excludes p (codes "commit") sql l (omega arith) nc h)
      (excludes p (codes "rollback") sql l (omega arith) nr h)

-- A statement that begins a transaction does not end one.
pub begin_only : (sql : Bytes) → match_tran_begin sql ≡ true → match_tran_end sql ≡ false
unfolding match_tran_begin
begin_only sql h =
    elim (or_cases (fold_prefix (codes "begin") sql) (fold_prefix (codes "start transaction") sql)
      h) [
        | inl b ↦ ends_no (codes "begin") sql (omega arith) (omega arith) (omega arith) b
        | inr b ↦
            ends_no (codes "start transaction") sql (omega arith) (omega arith) (omega arith) b
      ]

no_first :
    (p : Bytes) (b : ℕ) (s : Bytes) → IsLetter (first p) → b < b'A' → fold_prefix p (b ∷ s) ≡ false
unfolding fold_width fold_prefix
no_first [] b s hc h = absurd (omega arith)
no_first (c ∷ p) b s hc h = ground arith

-- A statement that starts below `A`, such as with a blank or a comment's `/`, matches no pattern.
pub no_pattern :
    (b : ℕ) (sql : Bytes)
    → b < b'A'
    → (match_select (b ∷ sql) ≡ false)
      × (match_tran_begin (b ∷ sql) ≡ false)
      × (match_tran_end (b ∷ sql) ≡ false)
unfolding match_select match_tran_begin match_tran_end
no_pattern b sql h =
    let no_match = λ (p : Bytes) (l : IsLetter (first p)). no_first p b sql l h in
    (
      no_match (codes "select") (omega arith),
      or_false (fold_prefix (codes "begin") (b ∷ sql))
          (fold_prefix (codes "start transaction") (b ∷ sql))
          (no_match (codes "begin") (omega arith))
          (no_match (codes "start transaction") (omega arith)),
      or_false (fold_prefix (codes "commit") (b ∷ sql)) (fold_prefix (codes "rollback") (b ∷ sql))
          (no_match (codes "commit") (omega arith)) (no_match (codes "rollback") (omega arith)),
    )
