-- ===== src/Mysql/Dsn/Cutting.antt =====
-- Where the parsing of a DSN cuts: mysql/dsn.go looks for a first or a last byte and slices there.
use dbrwproxy.Prelude.{
  ℕ, suc, ◌≡◌, ◌≢◌, refl, Bytes, List, [], ◌∷◌, ◌++◌, true, false, none, some, All, ◌==◌, length,
  drop, arith, index_byte, Bool-cases, inl, inr,
}
use dbrwproxy.Mysql.Dsn.Text.{last_index_byte, lacks_byte}

abbrev pub Lacks : ℕ → Bytes → Type 0
Lacks c = All (λ b. b ≢ c)

pub differs : (b c : ℕ) → b ≢ c → (b == c) ≡ false
differs b c h = ground arith

pub same : (c : ℕ) → (c == c) ≡ true
same c = ground arith

pub index_byte-Lacks : (c : ℕ) (xs : Bytes) → Lacks c xs → index_byte xs c ≡ none
unfolding index_byte
index_byte-Lacks c [] _ = refl
index_byte-Lacks c (x ∷ xs) (h, hs) = rw (differs x c h, index_byte-Lacks c xs hs) refl

pub lacks_byte-Lacks : (c : ℕ) (xs : Bytes) → Lacks c xs → lacks_byte xs c ≡ true
lacks_byte-Lacks c xs h = rw (lacks_byte, index_byte-Lacks c xs h) refl

pub index_byte-append :
    (c : ℕ) (xs ys : Bytes) → Lacks c xs → index_byte (xs ++ (c ∷ ys)) c ≡ some (length xs)
unfolding index_byte
index_byte-append c [] ys _ = rw (same c) refl
index_byte-append c (x ∷ xs) ys (h, hs) = rw (differs x c h, index_byte-append c xs ys hs) refl

pub last_index_byte-Lacks : (c : ℕ) (xs : Bytes) → Lacks c xs → last_index_byte xs c ≡ none
unfolding last_index_byte
last_index_byte-Lacks c [] _ = refl
last_index_byte-Lacks c (x ∷ xs) (h, hs) = rw (last_index_byte-Lacks c xs hs, differs x c h) refl

pub last_index_byte-append :
    (c : ℕ) (xs ys : Bytes) → Lacks c ys → last_index_byte (xs ++ (c ∷ ys)) c ≡ some (length xs)
unfolding last_index_byte
last_index_byte-append c [] ys h = rw (last_index_byte-Lacks c ys h, same c) refl
last_index_byte-append c (x ∷ xs) ys h = rw (last_index_byte-append c xs ys h) refl

pub drop_past : {A : Type 0} (c : A) (xs ys : List A) → drop (suc (length xs)) (xs ++ (c ∷ ys)) ≡ ys
drop_past c [] ys = refl
drop_past c (x ∷ xs) ys = drop_past c xs ys

lacks : (c x : ℕ) (xs : Bytes) → lacks_byte (x ∷ xs) c ≡ true → (x ≢ c) × (lacks_byte xs c ≡ true)
unfolding index_byte
lacks c x xs h = elim (Bool-cases (x == c)) [
  | inl e ↦ absurd (ground (arith, e, h))
  | inr e ↦ (ground (arith, e, h), ground (arith, e, h))
]

pub Lacks-lacks_byte : (c : ℕ) (xs : Bytes) → lacks_byte xs c ≡ true → Lacks c xs
Lacks-lacks_byte c [] h = tt
Lacks-lacks_byte c (x ∷ xs) h = ((lacks c x xs h).0, Lacks-lacks_byte c xs (lacks c x xs h).1)
