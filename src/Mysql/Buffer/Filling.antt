-- ===== src/Mysql/Buffer/Filling.antt =====
-- The loop of `fill` of mysql/buffer.go, against the bytes that arrive.
use dbrwproxy.Prelude.{
  ℕ, ◌+◌, ◌-◌, ◌≤◌, ◌<◌, ◌≡◌, sym, ap, subst, ◌∙◌, Bytes, List, [], ◌∷◌, ◌++◌, append_assoc, false,
  Bool-cases, inl, inr, ltb, leb, length, drop, take, length-append, length-take, length-drop,
  take-append-drop, take-append_length, arith, append-nil,
}
use dbrwproxy.Mysql.Buffer.{
  Arrival, got, ended, failing, Filled, filled, broken, waiting, write_at, fill_loop,
}

-- The bytes that a socket gives before its end or an error.
abbrev pub total : List Arrival → Bytes
total [] = []
total (got bytes ∷ net) = bytes ++ total net
total (ended bytes ∷ net) = bytes
total (failing ∷ net) = []

-- What the loop owes to `need`, where `s` is the stream that it starts from.
abbrev pub Meets : ℕ → Bytes → Filled → Type 0
Meets need s (filled mem n net) = (need ≤ n) × (n ≤ length mem) × (s ≡ take n mem ++ total net)
Meets need s (broken mem) = length s < need
Meets need s waiting = length s < need

take_len : (n : ℕ) (mem : Bytes) → n ≤ length mem → length (take n mem) ≡ n
take_len n mem h = omega (arith, length-take n mem)

pub length-write_at :
    (n : ℕ) (bytes mem : Bytes)
    → n + length bytes ≤ length mem
    → length (write_at n bytes mem) ≡ length mem
unfolding write_at
length-write_at n bytes mem h = omega (
  arith,
  length-append (take n mem ++ bytes) (drop (n + length bytes) mem),
  length-append (take n mem) bytes,
  length-take n mem,
  length-drop (n + length bytes) mem,
)

pub take-write_at :
    (n : ℕ) (bytes mem : Bytes)
    → n + length bytes ≤ length mem
    → take (n + length bytes) (write_at n bytes mem) ≡ take n mem ++ bytes
unfolding write_at
take-write_at n bytes mem h =
    let behind = drop (n + length bytes) mem in
    let front : Bytes = take n mem ++ bytes in
    let len : n + length bytes ≡ length front =
      omega (arith, length-append (take n mem) bytes, take_len n mem (omega arith)) in
    ap (λ m. take m (front ++ behind)) len ∙ take-append_length front behind

short :
    (need n : ℕ) (mem bytes : Bytes)
    → n ≤ length mem
    → n + length bytes < need
    → length (take n mem ++ bytes) < need
short need n mem bytes room h = omega (arith, length-append (take n mem) bytes, take_len n mem room)

-- The stream, with what was written so far in front.
stream :
    (n : ℕ) (bytes mem rest : Bytes)
    → n + length bytes ≤ length mem
    → take n mem ++ (bytes ++ rest) ≡ take (n + length bytes) (write_at n bytes mem) ++ rest
stream n bytes mem rest h =
    sym (append_assoc (take n mem) bytes rest)
    ∙ ap (λ b. b ++ rest) (sym (take-write_at n bytes mem h))

-- A read that fills the slice.
full :
    (need n : ℕ) (bytes mem rest : Bytes)
    → n ≤ length mem
    → length mem - n ≤ length bytes
    → need ≤ length mem
    → (need ≤ length mem)
      × (length mem ≤ length (write_at n (take (length mem - n) bytes) mem))
      × (take n mem ++ (bytes ++ rest)
          ≡ take (length mem) (write_at n (take (length mem - n) bytes) mem)
            ++ (drop (length mem - n) bytes ++ rest))
full need n bytes mem rest room more enough =
    let part = take (length mem - n) bytes in
    let left = drop (length mem - n) bytes in
    let len : length part ≡ length mem - n = omega (arith, length-take (length mem - n) bytes) in
    let fits : n + length part ≤ length mem = omega (arith, len) in
    let at : n + length part ≡ length mem = omega (arith, len) in
    let split : bytes ++ rest ≡ part ++ (left ++ rest) =
      ap (λ b. b ++ rest) (sym (take-append-drop (length mem - n) bytes))
      ∙ append_assoc part left rest in
    (
      enough,
      omega (arith, length-write_at n part mem fits),
      ap (λ b. take n mem ++ b) split
          ∙ stream n part mem (left ++ rest) fits
          ∙ ap (λ m. take m (write_at n part mem) ++ (left ++ rest)) at,
    )

-- The loop returns with enough bytes in the slice, and what it read and left is the stream; or the
-- stream is too short.
pub fill_loop-Meets :
    (need n : ℕ) (mem : Bytes) (net : List Arrival)
    → n ≤ length mem
    → n < need
    → need ≤ length mem
    → Meets need (take n mem ++ total net) (fill_loop need n mem net)
unfolding fill_loop
fill_loop-Meets need n mem [] room less enough = short need n mem [] room (omega arith)
fill_loop-Meets need n mem (failing ∷ net) room less enough = short need n mem [] room (omega arith)
fill_loop-Meets need n mem (got bytes ∷ net) room less enough =
    elim (Bool-cases (leb (length bytes) (length mem - n))) [
      | inl fit ↦
          let h : n + length bytes ≤ length mem = ground arith in
          let len = length-write_at n bytes mem h in
          let same = stream n bytes mem (total net) h in
          elim (Bool-cases (ltb (n + length bytes) need)) [
            | inl more ↦
                rw (fit, more)
                  (subst
                    (λ s.
                      Meets need s (fill_loop need (n + length bytes) (write_at n bytes mem) net))
                    (sym same)
                    (fill_loop-Meets need (n + length bytes) (write_at n bytes mem) net
                      (omega (arith, len)) (ground arith) (omega (arith, len))))
            | inr done ↦ rw (fit, done) (ground arith, omega (arith, len), same)
          ]
      | inr over ↦
          let e : ltb (length mem) need ≡ false = ground arith in
          rw (over, e) (full need n bytes mem (total net) room (ground arith) enough)
    ]
fill_loop-Meets need n mem (ended bytes ∷ net) room less enough =
    let whole : take n mem ++ bytes ≡ take n mem ++ (bytes ++ []) =
      ap (λ b. take n mem ++ b) (sym (append-nil bytes)) in
    elim (Bool-cases (leb (length bytes) (length mem - n))) [
      | inl fit ↦
          let h : n + length bytes ≤ length mem = ground arith in
          let len = length-write_at n bytes mem h in
          elim (Bool-cases (ltb (n + length bytes) need)) [
            | inl more ↦ rw (fit, more) (short need n mem bytes room (ground arith))
            | inr done ↦
                rw (fit, done) (ground arith, omega (arith, len), whole ∙ stream n bytes mem [] h)
          ]
      | inr over ↦
          let e : ltb (length mem) need ≡ false = ground arith in
          let (large, fits, same) = full need n bytes mem [] room (ground arith) enough in
          let left = append-nil (drop (length mem - n) bytes) in
          rw (over, e)
            (
              large,
              fits,
              whole
                  ∙ same
                  ∙ ap (λ b. take (length mem) (write_at n (take (length mem - n) bytes) mem) ++ b)
                      left,
            )
    ]
