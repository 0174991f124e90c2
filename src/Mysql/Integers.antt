-- ===== src/Mysql/Integers.antt =====
-- Little-endian integers, as mysql/utils.go and mysql/packets.go read and write them byte by byte.
-- The bits of the shifted bytes are disjoint, so `|` is a sum.
use mathlib.Core.Option
use dbrwproxy.Prelude.{
  ℕ, zero, suc, ◌+◌, ◌*◌, ◌/◌, ◌%◌, ◌^◌, ◌<◌, ◌≡◌, refl, Bytes, IsByte, [], ◌∷◌, ◌++◌, Option, none,
  some, All, length, arith, ap, ◌⊎◌, inl, inr, ◌≤◌,
}
use native.Mathlib.Nat.{pow-suc}

-- byte(n), byte(n >> 8), …
unfoldable pub to_bytes : ℕ → ℕ → Bytes
to_bytes zero n = []
to_bytes (suc k) n = (n % 256) ∷ to_bytes k (n / 256)

-- uint64(b[0]) | uint64(b[1]) << 8 | …; `none` is an index out of range.
unfoldable pub from_bytes : ℕ → Bytes → Option ℕ
from_bytes zero b = some 0
from_bytes (suc k) [] = none
from_bytes (suc k) (c ∷ b) = Option.map (λ v. c + 256 * v) (from_bytes k b)

unfoldable pub uint64_to_bytes : ℕ → Bytes
uint64_to_bytes n = to_bytes 8 n

pub to_bytes-IsByte : (k n : ℕ) → All IsByte (to_bytes k n)
unfolding to_bytes
to_bytes-IsByte zero n = tt
to_bytes-IsByte (suc k) n = (omega arith, to_bytes-IsByte k (n / 256))

pub length-to_bytes : (k n : ℕ) → length (to_bytes k n) ≡ k
unfolding to_bytes
length-to_bytes zero n = refl
length-to_bytes (suc k) n = omega (arith, length-to_bytes k (n / 256))

pub from_bytes-to_bytes :
    (k n : ℕ) (rest : Bytes) → n < 256 ^ k → from_bytes k (to_bytes k n ++ rest) ≡ some n
unfolding from_bytes to_bytes
from_bytes-to_bytes zero n rest h = ground arith
from_bytes-to_bytes (suc k) n rest h =
    rw (from_bytes-to_bytes k (n / 256) rest (omega (arith, pow-suc 256 k))) (ap some (omega arith))

-- A number is read from as many bytes as it takes, and not from fewer.
pub from_bytes_cases : (k : ℕ) (b : Bytes) → (from_bytes k b ≡ none) ⊎ (k ≤ length b)
unfolding from_bytes
from_bytes_cases zero b = inr (omega arith)
from_bytes_cases (suc k) [] = inl refl
from_bytes_cases (suc k) (c ∷ b) = ground (arith, from_bytes_cases k b)
