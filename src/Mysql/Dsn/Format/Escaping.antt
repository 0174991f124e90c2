-- ===== src/Mysql/Dsn/Format/Escaping.antt =====
-- What net/url escapes for `FormatDSN`, read back by what it undoes for `ParseDSN`.
use dbrwproxy.Prelude.{
  ℕ, ◌+◌, ◌*◌, ◌/◌, ◌%◌, ◌<◌, ◌≡◌, ◌≢◌, refl, ap, Bytes, IsByte, [], ◌∷◌, ◌++◌, Bool, true, false,
  some, All, All-append, ◌==◌, if◌then◌else◌, arith, ==_iff, sym, Bool-cases, inl, inr,
}
use dbrwproxy.Mysql.Dsn.Text.{unhex, unescape, in_front, unplus}
use dbrwproxy.Mysql.Dsn.Cutting.{Lacks, differs}
use dbrwproxy.Mysql.Dsn.Format.{is_unreserved, is_segment, hex, percent, path_escape, query_escape}

unhex-hex : (n : ℕ) → n < 16 → unhex (hex n) ≡ some n
unfolding unhex hex
unhex-hex n h = ground arith

-- A byte that stands for itself, and one that '%' stands in front of.
unescape-plain :
    (plus : Bool) (b : ℕ) (bs : Bytes)
    → b ≢ b'%'
    → unescape plus (b ∷ bs) ≡ in_front (unplus plus b) (unescape plus bs)
unfolding unescape
unescape-plain plus b [] h = rw (differs b b'%' h) refl
unescape-plain plus b (c ∷ []) h = rw (differs b b'%' h) refl
unescape-plain plus b (c ∷ d ∷ bs) h = rw (differs b b'%' h) refl

hex_parts : (b : ℕ) → (b / 16) * 16 + b % 16 ≡ b
hex_parts b = omega arith

unescape-percent :
    (plus : Bool) (b : ℕ) (bs : Bytes)
    → IsByte b
    → unescape plus (percent b ++ bs) ≡ in_front b (unescape plus bs)
unfolding unescape
unescape-percent plus b bs h =
    rw (unhex-hex (b / 16) (omega arith), unhex-hex (b % 16) (omega arith), hex_parts b) refl

apart : (f : ℕ → Bool) (b c : ℕ) → f c ≡ false → f b ≡ true → b ≢ c
apart f b c unkept kept e = let same : f c ≡ f b = ap f (sym e) in absurd (cc)

path_byte :
    (b : ℕ) (bs r : Bytes)
    → IsByte b
    → unescape false bs ≡ some r
    → unescape false ((if is_segment b then b ∷ [] else percent b) ++ bs) ≡ some (b ∷ r)
unfolding is_segment
path_byte b bs r h e = elim (Bool-cases (is_segment b)) [
  | inl k ↦ rw (k, unescape-plain false b bs (apart is_segment b b'%' refl k), e) refl
  | inr k ↦ rw (k, unescape-percent false b bs h, e) refl
]

query_byte :
    (b : ℕ) (bs r : Bytes)
    → IsByte b
    → unescape true bs ≡ some r
    → unescape true
        ((if b == 32 then b'+' ∷ [] else if is_unreserved b then b ∷ [] else percent b) ++ bs)
      ≡ some (b ∷ r)
unfolding is_unreserved
query_byte b bs r h e = elim (Bool-cases (b == 32)) [
  | inl k ↦
      rw (k, unescape-plain true b'+' bs (λ x. absurd (omega arith)), e)
        (ap (λ x. some (x ∷ r)) (sym ((==_iff b 32).0 k)))
  | inr k ↦ elim (Bool-cases (is_unreserved b)) [
    | inl u ↦
        rw
          (
            k,
            u,
            unescape-plain true b bs (apart is_unreserved b b'%' refl u),
            e,
            differs b b'+' (apart is_unreserved b b'+' refl u),
          )
          refl
    | inr u ↦ rw (k, u, unescape-percent true b bs h, e) refl
  ]
]

pub unescape-path_escape : (bs : Bytes) → All IsByte bs → unescape false (path_escape bs) ≡ some bs
unfolding path_escape unescape
unescape-path_escape [] _ = refl
unescape-path_escape (b ∷ bs) (h, hs) =
    path_byte b (path_escape bs) bs h (unescape-path_escape bs hs)

pub unescape-query_escape : (bs : Bytes) → All IsByte bs → unescape true (query_escape bs) ≡ some bs
unfolding query_escape unescape
unescape-query_escape [] _ = refl
unescape-query_escape (b ∷ bs) (h, hs) =
    query_byte b (query_escape bs) bs h (unescape-query_escape bs hs)

-- A byte that no escape is made of.
abbrev pub IsForeign : ℕ → Type 0
IsForeign c = (c ≢ b'%') × ((n : ℕ) → n < 16 → hex n ≢ c)

percent-Lacks : (c b : ℕ) → IsForeign c → IsByte b → Lacks c (percent b)
percent-Lacks c b (p, h) byte =
    ((λ e. p (sym e)), (h (b / 16) (omega arith), (h (b % 16) (omega arith), tt)))

kept-Lacks :
    (f : ℕ → Bool) (c b : ℕ)
    → f c ≡ false
    → IsForeign c
    → IsByte b
    → Lacks c (if f b then b ∷ [] else percent b)
kept-Lacks f c b unkept foreign byte = elim (Bool-cases (f b)) [
  | inl k ↦ rw k (apart f b c unkept k, tt)
  | inr k ↦ rw k (percent-Lacks c b foreign byte)
]

pub path_escape-Lacks :
    (c : ℕ) (bs : Bytes)
    → is_segment c ≡ false
    → IsForeign c
    → All IsByte bs
    → Lacks c (path_escape bs)
unfolding path_escape unescape
path_escape-Lacks c [] unkept foreign _ = tt
path_escape-Lacks c (b ∷ bs) unkept foreign (h, hs) =
    All-append (λ x. x ≢ c) _ _ (kept-Lacks is_segment c b unkept foreign h)
      (path_escape-Lacks c bs unkept foreign hs)

pub query_escape-Lacks :
    (c : ℕ) (bs : Bytes)
    → b'+' ≢ c
    → is_unreserved c ≡ false
    → IsForeign c
    → All IsByte bs
    → Lacks c (query_escape bs)
unfolding query_escape unescape
query_escape-Lacks c [] plus unkept foreign _ = tt
query_escape-Lacks c (b ∷ bs) plus unkept foreign (h, hs) =
    let kept = kept-Lacks is_unreserved c b unkept foreign h in
    let first : Lacks c
        (if b == 32 then b'+' ∷ [] else if is_unreserved b then b ∷ [] else percent b) =
      elim (Bool-cases (b == 32)) [ inl k ↦ rw k (plus, tt) | inr k ↦ rw k kept ] in
    All-append (λ x. x ≢ c) _ _ first (query_escape-Lacks c bs plus unkept foreign hs)
