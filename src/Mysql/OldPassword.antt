-- ===== src/Mysql/OldPassword.antt =====
-- mysql/auth.go: the hash of a password before MySQL 4.1, and its pseudo random numbers.
-- A uint32 is a number below 2 ^ 32, with the wrap-around written out.
pub mod Scramble
mod Runs
use Prim.Native.Nat.{bit_xor}
use dbrwproxy.Prelude.{
  ℕ, zero, suc, ◌+◌, ◌*◌, ◌/◌, ◌%◌, ◌^◌, Bytes, List, [], ◌∷◌, ◌++◌, Bool, true, false, ◌||◌,
  Option, none, some, ltb, ◌==◌, if◌then◌else◌, length, take, map,
}

abbrev pub word : ℕ → ℕ
word n = n % 2 ^ 32

abbrev pub my_rnd_max_val : ℕ
my_rnd_max_val = 0x3fffffff

pub record MyRnd : Type 0 where
  pub seed1 : ℕ
  pub seed2 : ℕ

unfoldable pub new_my_rnd : ℕ → ℕ → MyRnd
new_my_rnd seed1 seed2 = record { seed1 = seed1 % my_rnd_max_val; seed2 = seed2 % my_rnd_max_val }

unfoldable pub next_byte : MyRnd → ℕ × MyRnd
next_byte r =
    let seed1 = word (word (r.seed1 * 3) + r.seed2) % my_rnd_max_val in
    let seed2 = word (word (seed1 + r.seed2) + 33) % my_rnd_max_val in
    (seed1 * 31 / my_rnd_max_val % 256, record { seed1 = seed1; seed2 = seed2 })

-- The two words of a hash and the sum `add`.
pub record Hash : Type 0 where
  pub result0 : ℕ
  pub result1 : ℕ
  pub add : ℕ

abbrev pub is_blank : ℕ → Bool
is_blank c = c == b' ' || c == b'\t'

unfoldable pub hash_byte : Hash → ℕ → Hash
hash_byte h c =
    let left = word (word ((h.result0 % 64 + h.add) * c) + word (h.result0 * 256)) in
    let result0 = bit_xor h.result0 left in
    let result1 = word (h.result1 + bit_xor (word (h.result1 * 256)) result0) in
    record { result0 = result0; result1 = result1; add = word (h.add + c) }

unfoldable pub hash_loop : Hash → Bytes → Hash
unfolding hash_byte
hash_loop h [] = h
hash_loop h (c ∷ password) = hash_loop (if is_blank c then h else hash_byte h c) password

unfoldable pub pw_hash : Bytes → ℕ × ℕ
unfolding hash_loop
pw_hash password =
    let h = hash_loop (record { result0 = 1345345333; result1 = 0x12345671; add = 7 }) password in
    (h.result0 % 2 ^ 31, h.result1 % 2 ^ 31)

-- The bytes that the first loop of `scrambleOldPassword` puts into `out`, `k` of them.
unfoldable pub draw_bytes : ℕ → MyRnd → Bytes × MyRnd
unfolding next_byte
draw_bytes zero r = ([], r)
draw_bytes (suc k) r =
    let (b, next) = next_byte r in let (bs, last) = draw_bytes k next in ((b + 64) % 256 ∷ bs, last)

-- out[i] ^= mask
abbrev pub mask_bytes : Bytes × MyRnd → Bytes
mask_bytes (out, r) = map (λ b. bit_xor b (next_byte r).0) out

-- `none` is the slice scramble[:8] out of range, for a slice without spare capacity.
unfoldable pub scramble_old_password : Bytes → Bytes → Option Bytes
unfolding pw_hash new_my_rnd draw_bytes
scramble_old_password scramble password =
    let (pw0, pw1) = pw_hash password in
    let (sc0, sc1) = pw_hash (take 8 scramble) in
    if ltb (length scramble) 8
    then none
    else some (mask_bytes (draw_bytes 8 (new_my_rnd (bit_xor pw0 sc0) (bit_xor pw1 sc1))))
