-- ===== src/Mysql/Interpolate/Splice.antt =====
-- `interpolateParams` of mysql/connection.go against a description: the query with each '?' replaced by
-- the literal of its argument.
use mathlib.Core.Option
use dbrwproxy.Prelude.{
  ℕ, zero, suc, ◌+◌, ◌≤◌, ◌<◌, ◌≡◌, refl, sym, ap, subst, ◌∙◌, Bytes, codes, List, [], ◌∷◌, ◌++◌,
  append_assoc, true, false, Option, none, some, some-injective, ltb, ◌==◌, if◌then◌else◌, length,
  take, drop, length-append, index_byte, Bool-cases, Option-cases, inl, inr, arith,
}
use dbrwproxy.Prelude.Int.{ℤ, pos, negsuc, pos_part}
use dbrwproxy.Prelude.Decimal.{itoa}
use dbrwproxy.Mysql.Errors.{Result, ok, err, panic, skip, ◌>>=◌, >>=-middle}
use dbrwproxy.Mysql.Escape.{backslash_code, quote_code}
use dbrwproxy.Mysql.Escape.Append.{escaped, escape_appends}
use dbrwproxy.Mysql.Buffer.{Buffer, take_complete_buffer}
use dbrwproxy.Mysql.Dates.Format.{date_time_text, append_date_time}
use dbrwproxy.Mysql.Interpolate.{
  Argument, null, int, uint, float, boolean, moment, json, bytes, text, other, no_backslash_escapes,
  count_marks, escape_bytes, escape_string, append_argument, is_null, sized, interpolate_loop,
  interpolate_params,
}

unfoldable pub quoted : ℕ → Bytes → Bytes
quoted status v =
    (if no_backslash_escapes status
      then escaped b'\'' quote_code v
      else escaped b'\\' backslash_code v)
    ++ codes "'"

-- What stands for an argument.
unfoldable pub literal : ℕ → Argument → Result Bytes
unfolding quoted date_time_text
literal status null = ok (codes "NULL")
literal status (int v) = ok (itoa v)
literal status (uint v) = ok (itoa (pos v))
literal status (float printed) = ok printed
literal status (boolean true) = ok (codes "1")
literal status (boolean false) = ok (codes "0")
literal status (moment none) = ok (codes "'0000-00-00'")
literal status (moment (some v)) =
    date_time_text v.year v.month v.day v.hour v.minute v.second v.nanosecond >>= λ t.
    ok (codes "'" ++ (t ++ codes "'"))
literal status (json v) = ok (codes "'" ++ quoted status v)
literal status (bytes none) = ok (codes "NULL")
literal status (bytes (some v)) = ok (codes "_binary'" ++ quoted status v)
literal status (text v) = ok (codes "'" ++ quoted status v)
literal status other = err skip

-- The literals of all arguments.
unfoldable pub literals : ℕ → List Argument → Result (List Bytes)
unfolding literal
literals status [] = ok []
literals status (a ∷ args) = literal status a >>= λ t. literals status args >>= λ ts. ok (t ∷ ts)

-- The query with the next text in the place of each '?'.
unfoldable pub splice : Bytes → List Bytes → Bytes
splice [] ts = []
splice (b ∷ query) [] = if b == b'?' then [] else b ∷ splice query []
splice (b ∷ query) (t ∷ ts) =
    let kept = b ∷ splice query (t ∷ ts) in
    let put = t ++ splice query ts in if b == b'?' then put else kept

module _ (spare : Bytes → Bytes) (status : ℕ) where
  escape_bytes-quoted :
      (buf v : Bytes)
      → (escape_bytes spare status buf v >>= λ w. ok (w ++ codes "'")) ≡ ok (buf ++ quoted status v)
  unfolding escape_bytes quoted
  escape_bytes-quoted buf v =
      let (backslash, _, quotes, _) = escape_appends buf (spare buf) v in
      elim (Bool-cases (no_backslash_escapes status)) [
        | inl e ↦ rw (e, quotes) (ap ok (append_assoc buf (escaped b'\'' quote_code v) (codes "'")))
        | inr e ↦
            rw (e, backslash)
              (ap ok (append_assoc buf (escaped b'\\' backslash_code v) (codes "'")))
      ]

  escape_string-quoted :
      (buf v : Bytes)
      → (escape_string spare status buf v >>= λ w. ok (w ++ codes "'"))
        ≡ ok (buf ++ quoted status v)
  unfolding escape_string quoted
  escape_string-quoted buf v =
      let (_, backslash, _, quotes) = escape_appends buf (spare buf) v in
      elim (Bool-cases (no_backslash_escapes status)) [
        | inl e ↦ rw (e, quotes) (ap ok (append_assoc buf (escaped b'\'' quote_code v) (codes "'")))
        | inr e ↦
            rw (e, backslash)
              (ap ok (append_assoc buf (escaped b'\\' backslash_code v) (codes "'")))
      ]

  moment_appended :
      (r : Result Bytes) (buf : Bytes)
      → ((r >>= λ t. ok ((buf ++ codes "'") ++ t)) >>= λ w. ok (w ++ codes "'"))
        ≡ ((r >>= λ t. ok (codes "'" ++ (t ++ codes "'"))) >>= λ t. ok (buf ++ t))
  moment_appended panic buf = refl
  moment_appended (err e) buf = refl
  moment_appended (ok t) buf = ap ok (
      append_assoc (buf ++ codes "'") t (codes "'") ∙ append_assoc buf (codes "'") (t ++ codes "'"))

  -- An argument is appended as its literal, or refused with it.
  append_argument-literal :
      (a : Argument) (buf : Bytes)
      → append_argument spare status a buf ≡ (literal status a >>= λ t. ok (buf ++ t))
  unfolding append_argument literal append_date_time
  append_argument-literal null buf = refl
  append_argument-literal (int v) buf = refl
  append_argument-literal (uint v) buf = refl
  append_argument-literal (float printed) buf = refl
  append_argument-literal (boolean true) buf = refl
  append_argument-literal (boolean false) buf = refl
  append_argument-literal (moment none) buf = refl
  append_argument-literal (moment (some v)) buf =
      moment_appended (date_time_text v.year v.month v.day v.hour v.minute v.second v.nanosecond)
        buf
  append_argument-literal (json v) buf =
      escape_bytes-quoted (buf ++ codes "'") v
      ∙ ap ok (append_assoc buf (codes "'") (quoted status v))
  append_argument-literal (bytes none) buf = refl
  append_argument-literal (bytes (some v)) buf =
      escape_bytes-quoted (buf ++ codes "_binary'") v
      ∙ ap ok (append_assoc buf (codes "_binary'") (quoted status v))
  append_argument-literal (text v) buf =
      escape_string-quoted (buf ++ codes "'") v
      ∙ ap ok (append_assoc buf (codes "'") (quoted status v))
  append_argument-literal other buf = refl

later_none : (o : Option ℕ) → Option.map suc o ≡ none → o ≡ none
later_none none h = refl
later_none (some q) h = cc

later_some :
    (o : Option ℕ) (q : ℕ) → Option.map suc o ≡ some q → (p : ℕ) × (o ≡ some p) × (q ≡ suc p)
later_some none q h = cc
later_some (some p) q h = (p, refl, sym (some-injective (suc p) q h))

-- Where no '?' is left.
no_mark :
    (query : Bytes)
    → index_byte query b'?' ≡ none
    → (count_marks query ≡ 0) × (splice query [] ≡ query)
unfolding index_byte count_marks splice
no_mark [] h = (refl, refl)
no_mark (b ∷ query) h = elim (Bool-cases (b == b'?')) [
  | inl e ↦ absurd (ground (arith, e, h))
  | inr e ↦
      let (none_left, same) = no_mark query (later_none (index_byte query b'?') (rw e at h)) in
      (rw e none_left, rw e (ap (◌∷◌ b) same))
]

-- The first '?', with what stands in front of it and behind it.
first_mark :
    (query : Bytes) (q : ℕ)
    → index_byte query b'?' ≡ some q
    → (count_marks query ≡ suc (count_marks (drop (suc q) query)))
      × ((length (drop (suc q) query) < length query)
          × ((t : Bytes) (ts : List Bytes)
              → splice query (t ∷ ts) ≡ take q query ++ (t ++ splice (drop (suc q) query) ts)))
unfolding index_byte count_marks splice
first_mark [] q h = cc
first_mark (b ∷ query) q h = elim (Bool-cases (b == b'?')) [
  | inl e ↦
      let zeroth : 0 ≡ q = some-injective 0 q (rw e at h) in
      rw (sym zeroth) (rw e refl, (omega arith, λ t ts. rw e refl))
  | inr e ↦
      let (p, found, at) = later_some (index_byte query b'?') q (rw e at h) in
      let (count, (shorter, cut)) = first_mark query p found in
      rw at (rw e count, (omega arith, λ t ts. rw e (ap (◌∷◌ b) (cut t ts))))
]

==_same : (n : ℕ) → (n == n) ≡ true
==_same n = ground arith

le→not_ltb : (a b : ℕ) → b ≤ a → ltb a b ≡ false
le→not_ltb a b h = ground arith

value_of : Result (List Bytes) → List Bytes
value_of panic = []
value_of (err e) = []
value_of (ok ts) = ts

ok-injective : (ts us : List Bytes) → ok ts ≡ ok us → ts ≡ us
unfolding value_of
ok-injective ts us h = ap value_of h

sized-fits :
    (a : Argument) (max : ℤ) (buf : Bytes)
    → length buf + 4 ≤ pos_part max
    → sized a max buf ≡ ok buf
unfolding sized
sized-fits a (negsuc m) buf h = absurd (omega arith)
sized-fits a (pos m) buf h = elim (Bool-cases (is_null a)) [
  | inl e ↦ rw e refl
  | inr e ↦ rw (e, le→not_ltb (m + 0) (length buf + 4 + 0) (omega arith)) refl
]

-- The literals of a list that is not empty.
literals_first :
    (status : ℕ) (a : Argument) (args : List Argument) (ts : List Bytes)
    → literals status (a ∷ args) ≡ ok ts
    → (t : Bytes) × (literal status a ≡ ok t)
      × ((rest : List Bytes) × (literals status args ≡ ok rest) × (ts ≡ t ∷ rest))
unfolding literals
literals_first status a args ts h =
    let (t, first, then') = >>=-middle (literal status a) _ h in
    let (rest, others, last) = >>=-middle (literals status args) _ then' in
    (t, first, (rest, others, ok-injective ts (t ∷ rest) (sym last)))

module _ (spare : Bytes → Bytes) (status : ℕ) (max_allowed_packet : ℤ) where
  interpolate_loop-splice :
      (fuel : ℕ) (query : Bytes) (args : List Argument) (ts : List Bytes) (buf : Bytes)
      → length query < fuel
      → count_marks query ≡ length args
      → literals status args ≡ ok ts
      → length (buf ++ splice query ts) + 4 ≤ pos_part max_allowed_packet
      → interpolate_loop spare status max_allowed_packet fuel query args buf
        ≡ ok (buf ++ splice query ts, [])
  unfolding interpolate_loop literals
  interpolate_loop-splice zero query args ts buf h count l fits = absurd (omega arith)
  interpolate_loop-splice (suc fuel) query [] ts buf h count l fits =
      elim (Option-cases (index_byte query b'?')) [
        | inl e ↦
            let none_left : ts ≡ [] = ok-injective ts [] (sym l) in
            let same : splice query ts ≡ query =
              ap (splice query) none_left ∙ (no_mark query e).1 in
            rw (interpolate_loop, e) (ap (λ t. ok (buf ++ t, [])) (sym same))
        | inr (q, e) ↦ absurd (omega (arith, count, (first_mark query q e).0))
      ]
  interpolate_loop-splice (suc fuel) query (a ∷ args) ts buf h count l fits =
      elim (Option-cases (index_byte query b'?')) [
        | inl e ↦ absurd (omega (arith, count, (no_mark query e).0))
        | inr (q, e) ↦
            let (t, first, (rest, others, all)) = literals_first status a args ts l in
            let (counted, (shorter, cut)) = first_mark query q e in
            let later = drop (suc q) query in
            let written = (buf ++ take q query) ++ t in
            let whole : buf ++ splice query ts ≡ written ++ splice later rest =
              ap (λ x. buf ++ x) (ap (splice query) all ∙ cut t rest)
              ∙ sym (
                  append_assoc (buf ++ take q query) t (splice later rest)
                  ∙ append_assoc buf (take q query) (t ++ splice later rest)) in
            let room : length (written ++ splice later rest) + 4 ≤ pos_part max_allowed_packet =
              subst (λ w. length w + 4 ≤ pos_part max_allowed_packet) whole fits in
            let appended : append_argument spare status a (buf ++ take q query) ≡ ok written =
              append_argument-literal spare status a (buf ++ take q query)
              ∙ ap (λ r. r >>= λ x. ok ((buf ++ take q query) ++ x)) first in
            let fitting : sized a max_allowed_packet written ≡ ok written =
              sized-fits a max_allowed_packet written
                (omega (arith, room, length-append written (splice later rest))) in
            rw (interpolate_loop, e, appended, fitting)
              (interpolate_loop-splice fuel later args rest written (omega arith)
                  (omega (arith, count, counted)) others room
                ∙ ap (λ w. ok (w, [])) (sym whole))
      ]

-- For a free buffer, as many arguments as there are '?' in the query, of which each has a literal
-- (its type is known, and its year is in range), and a result that leaves four bytes of
-- `maxAllowedPacket`: `interpolateParams` runs to its end without a panic, whatever the capacity of
-- its slices, and returns the query with each '?' replaced by the literal of its argument.
pub interpolate_params-splice :
    (spare : Bytes → Bytes) (status : ℕ) (max_allowed_packet : ℤ) (b : Buffer) (query : Bytes)
    (args : List Argument) (ts : List Bytes)
    → b.held ≡ 0
    → count_marks query ≡ length args
    → literals status args ≡ ok ts
    → length (splice query ts) + 4 ≤ pos_part max_allowed_packet
    → interpolate_params spare status max_allowed_packet b query args ≡ ok (splice query ts)
unfolding interpolate_params take_complete_buffer
interpolate_params-splice spare status max_allowed_packet b query args ts free count l fits =
    rw
      (
        count,
        ==_same (length args),
        free,
        interpolate_loop-splice spare status max_allowed_packet (suc (length query)) query args ts
            [] (omega arith) count l fits,
      )
      refl
