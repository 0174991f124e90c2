-- ===== src/Mysql/Escape/Append.antt =====
-- The escaping functions of mysql/utils.go against a description of the escaped value.
use dbrwproxy.Prelude.{
  take-append_room, ℕ, zero, suc, ◌+◌, ◌*◌, ◌≤◌, ◌≡◌, refl, ap, ◌∙◌, Bytes, [], ◌∷◌, ◌++◌,
  append_assoc, append-nil, Option, none, some, arith, length, length-append, length-take, take,
  replicate, take-append_length, ltb, Bool-cases, ltb→le, inl, inr,
}
use dbrwproxy.Mysql.Escape.{
  reserve_buffer, store, round, escape_loop, backslash_code, quote_code, escape_bytes_backslash,
  escape_string_backslash, escape_bytes_quotes, escape_string_quotes,
}

-- What one byte becomes.
abbrev pub hide : ℕ → ℕ → Option ℕ → Bytes
hide lead c none = c ∷ []
hide lead c (some code) = lead ∷ code ∷ []

unfoldable pub escaped : ℕ → (ℕ → Option ℕ) → Bytes → Bytes
escaped lead code [] = []
escaped lead code (c ∷ v) = hide lead c (code c) ++ escaped lead code v

store_at : (pre r : Bytes) (x c : ℕ) → store (pre ++ (x ∷ r)) (length pre) c ≡ some (pre ++ (c ∷ r))
unfolding store
store_at [] r x c = refl
store_at (p ∷ pre) r x c = rw (store_at pre r x c)

store_next_suc :
    (pre r : Bytes) (x y c : ℕ)
    → store (pre ++ (x ∷ y ∷ r)) (suc (length pre)) c ≡ some (pre ++ (x ∷ c ∷ r))
unfolding store
store_next_suc [] r x y c = refl
store_next_suc (p ∷ pre) r x y c = rw (store_next_suc pre r x y c)

store_next :
    (pre r : Bytes) (x y c : ℕ)
    → store (pre ++ (x ∷ y ∷ r)) (length pre + 1) c ≡ some (pre ++ (x ∷ c ∷ r))
store_next pre r x y c =
    ap (λ n. store (pre ++ (x ∷ y ∷ r)) n c) (omega arith) ∙ store_next_suc pre r x y c

-- A round on a buffer with room for two bytes behind what is written.
round-hide :
    (lead c : ℕ) (code : Option ℕ) (pre r : Bytes) (x y : ℕ)
    → (r' : Bytes) × (round lead c code (pre ++ (x ∷ y ∷ r)) (length pre)
        ≡ some ((pre ++ hide lead c code) ++ r', length (pre ++ hide lead c code)))
      × (length r ≤ length r')
unfolding round
round-hide lead c none pre r x y =
    (y ∷ r, rw (store_at pre (y ∷ r) x c, append_assoc, length-append pre (c ∷ [])), omega arith)
round-hide lead c (some code) pre r x y = (
  r,
  rw (
    store_next pre r x y code,
    store_at pre (code ∷ r) x lead,
    append_assoc,
    length-append pre (lead ∷ code ∷ []),
  ),
  omega arith,
)

-- With two bytes of room for each byte that is left the loop never writes out of range.
loop-escaped :
    (lead : ℕ) (code : ℕ → Option ℕ) (v pre rest : Bytes)
    → length v * 2 ≤ length rest
    → escape_loop lead code v (pre ++ rest) (length pre) ≡ some (pre ++ escaped lead code v)
unfolding escape_loop escaped
loop-escaped lead code [] pre rest h = rw (take-append_length pre rest, append-nil)
loop-escaped lead code (c ∷ v) pre [] h = absurd (omega arith)
loop-escaped lead code (c ∷ v) pre (x ∷ []) h = absurd (omega arith)
loop-escaped lead code (c ∷ v) pre (x ∷ y ∷ rest) h =
    let (r, e, le) = round-hide lead c (code c) pre rest x y in
    rw e (loop-escaped lead code v (pre ++ hide lead c (code c)) r (omega arith) ∙ rw append_assoc)

length-take-replicate : (n m : ℕ) → n ≤ m → length (take n (replicate {A = ℕ} m 0)) ≡ n
length-take-replicate zero m h = refl
length-take-replicate (suc n) zero h = absurd (omega arith)
length-take-replicate (suc n) (suc m) h = ap suc (length-take-replicate n m (omega arith))

-- Both arms of `reserveBuffer` give the old bytes and room for exactly `n` more.
reserve_buffer_room :
    (buf spare : Bytes) (n : ℕ)
    → (rest : Bytes) × (reserve_buffer buf spare n ≡ buf ++ rest) × (length rest ≡ n)
unfolding reserve_buffer
reserve_buffer_room buf spare n =
    elim (Bool-cases (ltb (length buf + length spare) (length buf + n))) [
      | inl e ↦ (
        take n (replicate (length buf + n) 0),
        rw (e, take-append_room),
        length-take-replicate n (length buf + n) (omega arith),
      )
      | inr e ↦ (
        take n spare,
        rw (e, take-append_room),
        omega (arith, length-take n spare, ltb→le (length buf + length spare) (length buf + n) e),
      )
    ]

-- Whatever the buffer holds and however much of its array is spare, each of the four functions
-- returns without a write out of range, and the result is the buffer's own bytes followed by the
-- value with each special byte replaced by the lead byte and its code.
pub escape_appends :
    (buf spare v : Bytes)
    → (escape_bytes_backslash buf spare v ≡ some (buf ++ escaped b'\\' backslash_code v))
      × (escape_string_backslash buf spare v ≡ some (buf ++ escaped b'\\' backslash_code v))
      × (escape_bytes_quotes buf spare v ≡ some (buf ++ escaped b'\'' quote_code v))
      × (escape_string_quotes buf spare v ≡ some (buf ++ escaped b'\'' quote_code v))
unfolding escape_bytes_backslash escape_string_backslash escape_bytes_quotes escape_string_quotes
escape_appends buf spare v =
    let (rest, e, room) = reserve_buffer_room buf spare (length v * 2) in
    (
      rw e (loop-escaped b'\\' backslash_code v buf rest (omega arith)),
      rw e (loop-escaped b'\\' backslash_code v buf rest (omega arith)),
      rw e (loop-escaped b'\'' quote_code v buf rest (omega arith)),
      rw e (loop-escaped b'\'' quote_code v buf rest (omega arith)),
    )
