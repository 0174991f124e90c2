-- ===== src/Mysql/Dsn/Text.antt =====
-- What mysql/dsn.go uses of strings, strconv, net and net/url.
use dbrwproxy.Prelude.{
  ℕ, zero, suc, ◌+◌, ◌-◌, ◌*◌, ◌^◌, Bytes, List, [], ◌∷◌, ◌++◌, Bool, true, false, ◌&&◌, Option,
  none, some, ltb, leb, ◌==◌, if◌then◌else◌, take, drop, index_byte,
}
use dbrwproxy.Prelude.Int.{ℤ, pos, negsuc}

-- strings.LastIndexByte
unfoldable pub last_index_byte : Bytes → ℕ → Option ℕ
last_index_byte [] c = none
last_index_byte (b ∷ bs) c = elim (last_index_byte bs c) as (λ r. Option ℕ) [
  | some i ↦ some (suc i)
  | none ↦ if b == c then some 0 else none
]

-- strings.Split for a separator of one byte, behind a part of the first piece.
unfoldable pub split_from : ℕ → Bytes → Bytes → List Bytes
split_from c part [] = part ∷ []
split_from c part (b ∷ bs) =
    let next = split_from c [] bs in
    let more = split_from c (part ++ (b ∷ [])) bs in if b == c then part ∷ next else more

abbrev pub split : ℕ → Bytes → List Bytes
split c bs = split_from c [] bs

-- strings.SplitN(bs, c, 2), where it has two parts.
unfoldable pub split_pair : ℕ → Bytes → Option (Bytes × Bytes)
split_pair c bs = elim (index_byte bs c) as (λ r. Option (Bytes × Bytes)) [
  | none ↦ none
  | some i ↦ some (take i bs, drop (suc i) bs)
]

-- The value of a hexadecimal digit.
unfoldable pub unhex : ℕ → Option ℕ
unhex b =
    if leb 48 b && leb b 57
    then some (b - 48)
    else if leb 97 b && leb b 102
    then some (b - 87)
    else if leb 65 b && leb b 70
    then some (b - 55)
    else none

abbrev pub in_front : ℕ → Option Bytes → Option Bytes
in_front b none = none
in_front b (some rest) = some (b ∷ rest)

-- The byte of two hexadecimal digits, in front of what follows.
abbrev pub decoded : Option ℕ → Option ℕ → Option Bytes → Option Bytes
decoded none low rest = none
decoded (some h) none rest = none
decoded (some h) (some l) rest = in_front (h * 16 + l) rest

-- A byte other than '%'.
abbrev pub unplus : Bool → ℕ → ℕ
unplus plus b = if plus && b == b'+' then 32 else b

-- url.PathUnescape, and url.QueryUnescape, for which a plus is a blank.
unfoldable pub unescape : Bool → Bytes → Option Bytes
unfolding unhex
unescape plus [] = some []
unescape plus (b ∷ []) = if b == b'%' then none else some (unplus plus b ∷ [])
unescape plus (b ∷ h ∷ []) =
    let rest = unescape plus (h ∷ []) in if b == b'%' then none else in_front (unplus plus b) rest
unescape plus (b ∷ h ∷ l ∷ bs) =
    let rest = unescape plus (h ∷ l ∷ bs) in
    let behind = unescape plus bs in
    if b == b'%' then decoded (unhex h) (unhex l) behind else in_front (unplus plus b) rest

-- Whether a byte does not occur.
abbrev pub lacks_byte : Bytes → ℕ → Bool
lacks_byte bs c = elim (index_byte bs c) as (λ r. Bool) [ none ↦ true | some i ↦ false ]

-- net.SplitHostPort: host and port, or an error. The last ':' is at `i`.
unfoldable pub split_plain : Bytes → ℕ → Option (Bytes × Bytes)
split_plain all i =
    if lacks_byte (take i all) b':' && (lacks_byte all b'[' && lacks_byte all b']')
    then some (take i all, drop (suc i) all)
    else none

unfoldable pub split_bracketed : Bytes → ℕ → Option (Bytes × Bytes)
split_bracketed all i = elim (index_byte all b']') as (λ r. Option (Bytes × Bytes)) [
  | none ↦ none
  | some end ↦
      if suc end == i && (lacks_byte (drop 1 all) b'[' && lacks_byte (drop (suc end) all) b']')
      then some (drop 1 (take end all), drop (suc i) all)
      else none
]

unfoldable pub split_host_port : Bytes → Option (Bytes × Bytes)
unfolding split_plain split_bracketed
split_host_port [] = none
split_host_port (b ∷ bs) = elim (last_index_byte (b ∷ bs) b':') as (λ r. Option (Bytes × Bytes)) [
  | none ↦ none
  | some i ↦ if b == b'[' then split_bracketed (b ∷ bs) i else split_plain (b ∷ bs) i
]

-- net.JoinHostPort
unfoldable pub join_host_port : Bytes → Bytes → Bytes
join_host_port host port =
    if lacks_byte host b':' then host ++ (b':' ∷ port) else b'[' ∷ (host ++ (b']' ∷ b':' ∷ port))

-- The number that decimal digits stand for, behind a number.
unfoldable pub digits_value : ℕ → Bytes → Option ℕ
digits_value n [] = some n
digits_value n (b ∷ bs) =
    let rest = digits_value (n * 10 + (b - 48)) bs in if leb 48 b && leb b 57 then rest else none

-- The number below 0.
abbrev pub negated : ℕ → ℤ
negated zero = pos 0
negated (suc n) = negsuc n

-- strconv.Atoi: a sign, at least one digit, and a value in range.
unfoldable pub atoi_digits : Bool → Bytes → Option ℤ
unfolding digits_value
atoi_digits negative [] = none
atoi_digits negative (b ∷ bs) = elim (digits_value 0 (b ∷ bs)) as (λ r. Option ℤ) [
  | none ↦ none
  | some n ↦
      if negative
      then (if leb n (2 ^ 63) then some (negated n) else none)
      else if ltb n (2 ^ 63)
      then some (pos n)
      else none
]

unfoldable pub atoi : Bytes → Option ℤ
unfolding atoi_digits
atoi [] = none
atoi (b ∷ bs) =
    if b == b'-'
    then atoi_digits true bs
    else if b == b'+'
    then atoi_digits false bs
    else atoi_digits false (b ∷ bs)

-- strings.ToLower, of ASCII.
unfoldable pub to_lower : Bytes → Bytes
to_lower [] = []
to_lower (b ∷ bs) = (if leb 65 b && leb b 90 then b + 32 else b) ∷ to_lower bs
