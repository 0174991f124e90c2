-- ===== src/Mysql/OldPassword/Scramble.antt =====
-- The generator of mysql/auth.go in its bounds, and the shape of a scrambled password.
use Prim.Native.Nat.{bit_xor}
use dbrwproxy.Prelude.{
  ℕ, zero, suc, ◌+◌, ◌*◌, ◌%◌, ◌^◌, ◌≤◌, ◌<◌, ◌≡◌, refl, ap, ◌∙◌, Bytes, [], ◌∷◌, false, Bool-cases,
  inl, inr, none, some, ltb, if◌then◌else◌, length, take, map, All, arith,
}
use dbrwproxy.Mysql.OldPassword.{
  MyRnd, my_rnd_max_val, new_my_rnd, next_byte, Hash, is_blank, hash_byte, hash_loop, pw_hash,
  draw_bytes, mask_bytes, scramble_old_password,
}

-- The seeds are remainders.
abbrev pub IsSeeded : MyRnd → Type 0
IsSeeded r = (r.seed1 < my_rnd_max_val) × (r.seed2 < my_rnd_max_val)

new_my_rnd-IsSeeded : (a b : ℕ) → IsSeeded (new_my_rnd a b)
unfolding new_my_rnd
new_my_rnd-IsSeeded a b = (omega arith, omega arith)

-- From seeds below `myRndMaxVal`, which `newMyRnd` makes of any two numbers, `NextByte` computes in
-- uint32 what it would compute without a bound: no sum wraps around. The new seeds are below
-- `myRndMaxVal` again, and the byte is below 31.
pub next_byte-IsSeeded :
    (r : MyRnd)
    → IsSeeded r
    → let (b, next) = next_byte r in
      (next.seed1 ≡ (r.seed1 * 3 + r.seed2) % my_rnd_max_val)
      × (next.seed2 ≡ (next.seed1 + r.seed2 + 33) % my_rnd_max_val)
      × IsSeeded next
      × (b < 31)
unfolding next_byte
next_byte-IsSeeded r (lo, hi) = (omega arith, omega arith, (omega arith, omega arith), omega arith)

abbrev pub InAlphabet : ℕ → Type 0
InAlphabet b = (64 ≤ b) × (b ≤ 94)

draw_bytes-InAlphabet :
    (k : ℕ) (r : MyRnd)
    → IsSeeded r
    → (length (draw_bytes k r).0 ≡ k)
      × All InAlphabet (draw_bytes k r).0
      × IsSeeded (draw_bytes k r).1
unfolding draw_bytes
draw_bytes-InAlphabet zero r s = (refl, tt, s)
draw_bytes-InAlphabet (suc k) r s =
    let (_, _, s', small) = next_byte-IsSeeded r s in
    let (len, hs, last) = draw_bytes-InAlphabet k (next_byte r).1 s' in
    (ap suc len, ((omega arith, omega arith), hs), last)

length-map : (f : ℕ → ℕ) (xs : Bytes) → length (map f xs) ≡ length xs
length-map f [] = refl
length-map f (x ∷ xs) = ap suc (length-map f xs)

-- A password without its blanks and tabs.
unfoldable pub without_blanks : Bytes → Bytes
without_blanks [] = []
without_blanks (c ∷ password) =
    let rest = without_blanks password in if is_blank c then rest else c ∷ rest

hash_loop_plain :
    (h : Hash) (c : ℕ) (password : Bytes)
    → is_blank c ≡ false
    → hash_loop h (c ∷ password) ≡ hash_loop (hash_byte h c) password
unfolding hash_loop
hash_loop_plain h c password e = ap (λ b. hash_loop (if b then h else hash_byte h c) password) e

hash_loop-without_blanks :
    (h : Hash) (password : Bytes) → hash_loop h (without_blanks password) ≡ hash_loop h password
unfolding hash_loop without_blanks
hash_loop-without_blanks h [] = refl
hash_loop-without_blanks h (c ∷ password) = elim (Bool-cases (is_blank c)) [
  | inl e ↦ rw e (hash_loop-without_blanks h password)
  | inr e ↦ rw e (
      hash_loop_plain h c (without_blanks password) e
      ∙ hash_loop-without_blanks (hash_byte h c) password)
]

pw_hash-without_blanks : (password : Bytes) → pw_hash (without_blanks password) ≡ pw_hash password
unfolding pw_hash
pw_hash-without_blanks password =
    ap (λ h. (h.result0 % 2 ^ 31, h.result1 % 2 ^ 31))
      (hash_loop-without_blanks (record { result0 = 1345345333; result1 = 0x12345671; add = 7 })
        password)

scramble-without_blanks :
    (scramble password : Bytes)
    → scramble_old_password scramble (without_blanks password)
      ≡ scramble_old_password scramble password
unfolding scramble_old_password
scramble-without_blanks scramble password =
    let sc = pw_hash (take 8 scramble) in
    ap
      (λ pw.
        if ltb (length scramble) 8
        then none
        else some (mask_bytes (draw_bytes 8 (new_my_rnd (bit_xor pw.0 sc.0) (bit_xor pw.1 sc.1)))))
      (pw_hash-without_blanks password)

-- A scramble of at least eight bytes gives eight bytes, each of them one from 64 to 94 under a
-- mask below 31, and the same as for the password without its blanks and tabs.
pub scramble_old_password_shape :
    (scramble password : Bytes)
    → 8 ≤ length scramble
    → (out : Bytes) × (mask : ℕ) × (scramble_old_password scramble password
        ≡ some (map (λ b. bit_xor b mask) out))
      × (length out ≡ 8)
      × All InAlphabet out
      × (mask < 31)
      × (scramble_old_password scramble (without_blanks password)
          ≡ scramble_old_password scramble password)
unfolding scramble_old_password
scramble_old_password_shape scramble password enough =
    let pw = pw_hash password in
    let sc = pw_hash (take 8 scramble) in
    let r = new_my_rnd (bit_xor pw.0 sc.0) (bit_xor pw.1 sc.1) in
    let (len, hs, s) =
      draw_bytes-InAlphabet 8 r (new_my_rnd-IsSeeded (bit_xor pw.0 sc.0) (bit_xor pw.1 sc.1)) in
    let (_, _, _, small) = next_byte-IsSeeded (draw_bytes 8 r).1 s in
    let long : ltb (length scramble) 8 ≡ false = ground arith in
    (
      (draw_bytes 8 r).0,
      (next_byte (draw_bytes 8 r).1).0,
      rw long refl,
      len,
      hs,
      small,
      scramble-without_blanks scramble password,
    )
