-- ===== src/Mysql/Packets/Reading.antt =====
-- `readPacket` and `readPacket1` of mysql/packets.go: that they end, and what a client is sent.
use dbrwproxy.Prelude.{
  ℕ, zero, suc, ◌+◌, ◌%◌, ◌≤◌, ◌<◌, ◌≡◌, refl, sym, ap, ◌∙◌, Bytes, [], ◌++◌, append_assoc,
  Bool-cases, ◌⊎◌, inl, inr, Option, none, some, ltb, leb, ◌==◌, length, take, drop, get_or, arith,
  take-append-drop, length-take, length-append,
}
use dbrwproxy.Mysql.Packets.{
  Stream, PacketRead, packet, refused, dropped, Round, done, again, read_next, packet_length,
  terminate, read_body, read_header, read_loop, read_packet, relay_body, relay_header, relay_loop,
  read_packet1, max_packet_size,
}

-- What `readNext` returns is the front of the stream, of the length asked for.
pub read_next_cases :
    (n : ℕ) (bs : Bytes)
    → (read_next n bs ≡ none)
      ⊎ ((d : Bytes) × (r : Bytes) × (read_next n bs ≡ some (d, r))
          × (d ++ r ≡ bs)
          × (length d ≡ n))
unfolding read_next
read_next_cases n bs = elim (Bool-cases (leb n (length bs))) [
  | inl e ↦
      inr (take n bs, drop n bs, rw e refl, take-append-drop n bs, ground (arith, length-take n bs))
  | inr e ↦ inl (rw e refl)
]

-- The bytes relayed so far and those still to come are together the same as before.
abbrev pub Delivered : Bytes → Bytes → PacketRead → Type 0
Delivered all written (packet s d) = all ≡ written ++ s.incoming
Delivered all written (refused s e) = all ≡ written ++ s.incoming
Delivered all written (dropped e) = (rest : Bytes) × (all ≡ written ++ rest)

abbrev pub RoundDelivered : Bytes → Bytes → Round → Type 0
RoundDelivered all written (done p) = Delivered all written p
RoundDelivered all written (again d s) = all ≡ written ++ s.incoming

terminate-Delivered :
    (prev : Option Bytes) (s : Stream) (all written : Bytes)
    → all ≡ written ++ s.incoming
    → RoundDelivered all written (terminate prev s)
terminate-Delivered none s all written h = (s.incoming, h)
terminate-Delivered (some d) s all written h = h

body-Delivered :
    (prev : Option Bytes) (n : ℕ) (s : Stream) (all out : Bytes)
    → all ≡ out ++ s.incoming
    → (written : Bytes) × (relay_body prev n s out (read_next n s.incoming)
        ≡ (read_body prev n s (read_next n s.incoming), written))
      × RoundDelivered all written (read_body prev n s (read_next n s.incoming))
unfolding relay_body read_body
body-Delivered prev n s all out h = elim (read_next_cases n s.incoming) [
  | inl e ↦ rw e (out, refl, (s.incoming, h))
  | inr (d, r, e, same, len) ↦
      let moved : all ≡ (out ++ d) ++ r =
        h ∙ ap (λ x. out ++ x) (sym same) ∙ sym (append_assoc out d r) in
      elim (Bool-cases (ltb n max_packet_size)) [
        | inl small ↦ rw (e, small) (out ++ d, refl, moved)
        | inr full ↦ rw (e, full) (out ++ d, refl, moved)
      ]
]

-- A round that is not the last leaves fewer bytes than `n`.
abbrev pub Advances : ℕ → Round → Type 0
Advances n (done p) = Unit {0}
Advances n (again d s) = length s.incoming < n

terminate-Advances : (n : ℕ) (prev : Option Bytes) (s : Stream) → Advances n (terminate prev s)
terminate-Advances n none s = tt
terminate-Advances n (some d) s = tt

body-Advances :
    (prev : Option Bytes) (n m : ℕ) (s : Stream)
    → length s.incoming < m
    → Advances m (read_body prev n s (read_next n s.incoming))
unfolding read_body
body-Advances prev n m s h = elim (read_next_cases n s.incoming) [
  | inl e ↦ rw e tt
  | inr (d, r, e, same, len) ↦ elim (Bool-cases (ltb n max_packet_size)) [
    | inl small ↦ rw (e, small) tt
    | inr full ↦ rw (e, full) (omega (arith, length-append d r, ap length same))
  ]
]

header-Advances :
    (prev : Option Bytes) (s : Stream)
    → Advances (length s.incoming) (read_header prev s (read_next 4 s.incoming))
unfolding read_header
header-Advances prev s = elim (read_next_cases 4 s.incoming) [
  | inl e ↦ rw e tt
  | inr (d, r, e, same, len) ↦
      let next : Stream = record s { incoming = r; sequence = (s.sequence + 1) % 256 } in
      let less : length r < length s.incoming = omega (arith, length-append d r, ap length same) in
      elim (Bool-cases (get_or d 3 0 == s.sequence)) [
        | inl synced ↦ elim (Bool-cases (packet_length d == 0)) [
          | inl null ↦ rw (e, synced, null) (terminate-Advances (length s.incoming) prev next)
          | inr some_length ↦
              rw (e, synced, some_length)
                (body-Advances prev (packet_length d) (length s.incoming) next less)
        ]
        | inr lost ↦ rw (e, lost) tt
      ]
]

header-Delivered :
    (prev : Option Bytes) (s : Stream) (all out : Bytes)
    → all ≡ out ++ s.incoming
    → (written : Bytes) × (relay_header prev s out (read_next 4 s.incoming)
        ≡ (read_header prev s (read_next 4 s.incoming), written))
      × RoundDelivered all written (read_header prev s (read_next 4 s.incoming))
unfolding relay_header read_header
header-Delivered prev s all out h = elim (read_next_cases 4 s.incoming) [
  | inl e ↦ rw e (out, refl, (s.incoming, h))
  | inr (d, r, e, same, len) ↦
      let moved : all ≡ (out ++ d) ++ r =
        h ∙ ap (λ x. out ++ x) (sym same) ∙ sym (append_assoc out d r) in
      let next : Stream = record s { incoming = r; sequence = (s.sequence + 1) % 256 } in
      elim (Bool-cases (get_or d 3 0 == s.sequence)) [
        | inl synced ↦ elim (Bool-cases (packet_length d == 0)) [
          | inl null ↦
              rw (e, synced, null)
                (out ++ d, refl, terminate-Delivered prev next all (out ++ d) moved)
          | inr some_length ↦
              rw (e, synced, some_length)
                (body-Delivered prev (packet_length d) next all (out ++ d) moved)
        ]
        | inr lost ↦ rw (e, lost) (out ++ d, refl, moved)
      ]
]

abbrev pub Relayed : ℕ → Option Bytes → Stream → Bytes → Bytes → Type 0
Relayed fuel prev s all out =
    (p : PacketRead) × (written : Bytes) × (read_loop fuel prev s ≡ some p)
    × (relay_loop fuel prev s out ≡ some (p, written))
    × Delivered all written p

round-Relayed :
    (fuel : ℕ) (prev : Option Bytes) (s : Stream) (all out written : Bytes) (round : Round)
    → length s.incoming ≤ fuel
    → read_header prev s (read_next 4 s.incoming) ≡ round
    → relay_header prev s out (read_next 4 s.incoming) ≡ (round, written)
    → RoundDelivered all written round
    → Advances (length s.incoming) round
    → ((d : Bytes) (t : Stream)
        → length t.incoming < fuel
        → all ≡ written ++ t.incoming
        → Relayed fuel (some d) t all written)
    → Relayed (suc fuel) prev s all out
unfolding read_loop relay_loop
round-Relayed fuel prev s all out written (done p) enough e e' del _ more =
    (p, written, rw (e, read_loop) refl, rw (e', relay_loop, e') refl, del)
round-Relayed fuel prev s all out written (again d t) enough e e' del less more =
    let (p, last, ends, relayed, del') = more d t (omega arith) del in
    (p, last, rw (e, read_loop) ends, rw (e', relay_loop, e') relayed, del')

loop-Relayed :
    (fuel : ℕ) (prev : Option Bytes) (s : Stream) (all out : Bytes)
    → length s.incoming < fuel
    → all ≡ out ++ s.incoming
    → Relayed fuel prev s all out
loop-Relayed zero prev s all out h same = absurd (omega arith)
loop-Relayed (suc fuel) prev s all out h same =
    let (written, e, del) = header-Delivered prev s all out same in
    round-Relayed fuel prev s all out written (read_header prev s (read_next 4 s.incoming))
      (omega arith) refl e del (header-Advances prev s)
      (λ d t less here. loop-Relayed fuel (some d) t all written less here)

-- On every stream `readPacket` and `readPacket1` return, after a number of rounds that the stream's
-- length bounds, with the same packet or error. A packet's header and body, and those of its parts
-- where it is split, are exactly what `readPacket1` writes to the client: with what is left of the
-- stream they make up the stream. On an error it has written a front of the stream.
pub read_packet-relayed :
    (s : Stream)
    → (p : PacketRead) × (written : Bytes) × (read_packet s ≡ some p)
      × (read_packet1 s ≡ some (p, written))
      × Delivered s.incoming written p
unfolding read_packet read_packet1
read_packet-relayed s =
    loop-Relayed (suc (length s.incoming)) none s s.incoming [] (omega arith) refl
