-- ===== src/Prelude/Int.antt =====
-- Go's int on a 64-bit machine: an integer that wraps around at 2 ^ 63.
use Prim.Native.Nat.{ℕ, suc, ◌+◌, ◌-◌, ◌*◌, ◌%◌, ◌^◌, ◌<◌}
use mathlib.Core.Path.{◌≡◌, refl}
use mathlib.Core.Bool.{Bool}
use native.Mathlib.Omega.{arith}
use dbrwproxy.Prelude.Tests.{ltb, leb, if◌then◌else◌}

-- `negsuc n` is -(n + 1).
pub data ℤ : Type 0 where
  pos : ℕ → ℤ
  negsuc : ℕ → ℤ

abbrev pub pos_part : ℤ → ℕ
pos_part (pos n) = n
pos_part (negsuc n) = 0

abbrev pub neg_part : ℤ → ℕ
neg_part (pos n) = 0
neg_part (negsuc n) = suc n

-- a - b, as an integer.
abbrev pub sub_ℕ : ℕ → ℕ → ℤ
sub_ℕ a b = if leb b a then pos (a - b) else negsuc (b - a - 1)

abbrev pub ltb_ℤ : ℤ → ℤ → Bool
ltb_ℤ a b = ltb (pos_part a + neg_part b) (pos_part b + neg_part a)

abbrev pub leb_ℤ : ℤ → ℤ → Bool
leb_ℤ a b = leb (pos_part a + neg_part b) (pos_part b + neg_part a)

-- The 64-bit pattern of an integer, and the integer that a pattern stands for.
abbrev pattern64 : ℤ → ℕ
pattern64 (pos n) = n % 2 ^ 64
pattern64 (negsuc n) = 2 ^ 64 - 1 - n % 2 ^ 64

abbrev signed64 : ℕ → ℤ
signed64 w = if ltb w (2 ^ 63) then pos w else negsuc (2 ^ 64 - 1 - w)

-- Go's `a + b` on int.
unfoldable pub int_add : ℤ → ℤ → ℤ
int_add a b = signed64 ((pattern64 a + pattern64 b) % 2 ^ 64)

-- Go's `a * b` on int.
unfoldable pub int_mul : ℤ → ℤ → ℤ
int_mul a b = signed64 ((pattern64 a * pattern64 b) % 2 ^ 64)

pub int_add_pos : (a b : ℕ) → a + b < 2 ^ 63 → int_add (pos a) (pos b) ≡ pos (a + b)
unfolding int_add
int_add_pos a b h = ground arith

int_add_wraps : int_add (pos (2 ^ 63 - 1)) (pos 1) ≡ negsuc (2 ^ 63 - 1)
unfolding int_add
int_add_wraps = refl

int_add_signs : int_add (pos 3) (negsuc 4) ≡ negsuc 1
unfolding int_add
int_add_signs = refl

pub int_add_positive :
    (a : ℕ) (w : ℤ)
    → 0 < pos_part w
    → a + pos_part w < 2 ^ 63
    → int_add (pos a) w ≡ pos (a + pos_part w)
int_add_positive a (pos n) h fits = int_add_pos a n fits
int_add_positive a (negsuc n) h fits = absurd (omega arith)
