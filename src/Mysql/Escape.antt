-- ===== src/Mysql/Escape.antt =====
-- mysql/utils.go: `reserveBuffer` and the four functions that escape a value inside quotes.
-- A slice has its bytes and the spare bytes of its capacity. A write out of range is `none`, a panic.
pub mod Append
pub mod Literal
use mathlib.Core.Option
use dbrwproxy.Prelude.{
  ℕ, zero, suc, ◌+◌, ◌*◌, Bytes, List, [], ◌∷◌, ◌++◌, Bool, true, false, Option, none, some, ltb,
  ◌==◌, if◌then◌else◌, length, take, replicate,
}

infixl 5 ◌>>=◌
abbrev pub ◌>>=◌ {ℓ κ} : {A : Type ℓ} {B : Type κ} → Option A → (A → Option B) → Option B
none >>= f = none
some a >>= f = f a

-- A slice of `append_size` more bytes: a new array of zeros, or what the old one has behind its end.
unfoldable pub reserve_buffer : Bytes → Bytes → ℕ → Bytes
reserve_buffer buf spare append_size =
    let new_size = length buf + append_size in
    if ltb (length buf + length spare) new_size
    then take new_size (buf ++ replicate (length buf + append_size) 0)
    else take new_size (buf ++ spare)

-- buf[i] = c
pub store : Bytes → ℕ → ℕ → Option Bytes
store [] i c = none
store (b ∷ bs) zero c = some (c ∷ bs)
store (b ∷ bs) (suc i) c = Option.map (λ r. b ∷ r) (store bs i c)

-- The byte behind the backslash; `none` for a byte that stands for itself.
unfoldable pub backslash_code : ℕ → Option ℕ
backslash_code c =
    if c == 0x00
    then some b'0'
    else if c == b'\n'
    then some b'n'
    else if c == b'\r'
    then some b'r'
    else if c == 0x1a
    then some b'Z'
    else if c == b'\''
    then some b'\''
    else if c == b'"'
    then some b'"'
    else if c == b'\\'
    then some b'\\'
    else none

unfoldable pub quote_code : ℕ → Option ℕ
quote_code c = if c == b'\'' then some b'\'' else none

-- One round of a loop: the byte, or `lead` and the code behind it.
round : ℕ → ℕ → Option ℕ → Bytes → ℕ → Option (Bytes × ℕ)
unfolding store
round lead c none buf pos = do buf ← store buf pos c; some (buf, pos + 1)
round lead c (some code) buf pos = do
  buf ← store buf (pos + 1) code
  buf ← store buf pos lead
  some (buf, pos + 2)

escape_loop : ℕ → (ℕ → Option ℕ) → Bytes → Bytes → ℕ → Option Bytes
unfolding round
escape_loop lead code [] buf pos = some (take pos buf)
escape_loop lead code (c ∷ v) buf pos = do
  (buf, pos) ← round lead c (code c) buf pos
  escape_loop lead code v buf pos

unfoldable pub escape_bytes_backslash : Bytes → Bytes → Bytes → Option Bytes
unfolding escape_loop reserve_buffer backslash_code
escape_bytes_backslash buf spare v =
    escape_loop b'\\' backslash_code v (reserve_buffer buf spare (length v * 2)) (length buf)

unfoldable pub escape_string_backslash : Bytes → Bytes → Bytes → Option Bytes
unfolding escape_loop reserve_buffer backslash_code
escape_string_backslash buf spare v =
    escape_loop b'\\' backslash_code v (reserve_buffer buf spare (length v * 2)) (length buf)

unfoldable pub escape_bytes_quotes : Bytes → Bytes → Bytes → Option Bytes
unfolding escape_loop reserve_buffer quote_code
escape_bytes_quotes buf spare v =
    escape_loop b'\'' quote_code v (reserve_buffer buf spare (length v * 2)) (length buf)

unfoldable pub escape_string_quotes : Bytes → Bytes → Bytes → Option Bytes
unfolding escape_loop reserve_buffer quote_code
escape_string_quotes buf spare v =
    escape_loop b'\'' quote_code v (reserve_buffer buf spare (length v * 2)) (length buf)
