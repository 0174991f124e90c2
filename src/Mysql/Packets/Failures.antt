-- ===== src/Mysql/Packets/Failures.antt =====
-- What `writePacket` of mysql/packets.go reports when the network fails between two packets.
use dbrwproxy.Prelude.{
  ℕ, suc, ◌+◌, ◌-◌, ◌%◌, ◌≤◌, ◌≡◌, refl, sym, ap, ◌∙◌, Bytes, [], ◌∷◌, ◌++◌, Bool, true, false, not,
  ◌&&◌, none, some, ltb, leb, ◌==◌, length, take, drop, arith, length-append, length-drop,
  Bool-cases, inl, inr,
}
use dbrwproxy.Mysql.Errors.{bad_conn_no_write}
use dbrwproxy.Mysql.Packets.{max_packet_size}
use dbrwproxy.Mysql.Packets.Writing.{
  Sink, Outcome, whole, failed_empty, header_bytes, with_header, after_write, write_loop,
  write_packet,
}
use dbrwproxy.Mysql.Packets.Frames.{write_full, drop_head}

length-with_header :
    (sequence n : ℕ) (h p : Bytes)
    → length h ≡ 4
    → length (with_header sequence n (h ++ p)) ≡ 4 + length p
length-with_header sequence n h p four = elim (Bool-cases (leb max_packet_size n)) [
  | inl full ↦ rw (full, drop_head h p four) (omega arith)
  | inr last ↦ rw (last, drop_head h p four) (omega arith)
]

write_failed :
    (f : ℕ) (net : ℕ → Outcome) (k sequence : ℕ) (h p sent : Bytes)
    → net k ≡ failed_empty
    → length h ≡ 4
    → write_loop (suc f) net none k sequence (h ++ p) (length p) sent
      ≡ some (sent, sequence, some bad_conn_no_write)
unfolding write_loop after_write
write_failed f net k sequence h p sent fails four =
    let same : (length p == length (with_header sequence (length p) (h ++ p)) - 4) ≡ true =
      ground (arith, length-with_header sequence (length p) h p four) in
    rw (fails, same) refl

-- Where a payload is split, its first packet is written and the next write fails before its first
-- byte, `writePacket` returns `errBadConnNoWrite`, the error for a call that has written nothing,
-- although the first packet has been sent.
pub bad_conn_after_write :
    (net : ℕ → Outcome) (alive : Bool) (s : Sink) (h p : Bytes)
    → net 0 ≡ whole
    → net 1 ≡ failed_empty
    → s.canceled ≡ none
    → length h ≡ 4
    → max_packet_size ≤ length p
    → length p ≤ s.max_allowed_packet
    → (s.reset && not alive) ≡ false
    → write_packet net alive s (h ++ p)
      ≡ some (
        header_bytes s.sequence max_packet_size ++ take max_packet_size p,
        (s.sequence + 1) % 256,
        some bad_conn_no_write,
      )
unfolding write_packet
bad_conn_after_write net alive s h (x ∷ p) ok fails alone four big fits live =
    let n = length p in
    let len : length (h ++ (x ∷ p)) - 4 ≡ suc n = omega (arith, length-append h (x ∷ p)) in
    let small : ltb s.max_allowed_packet (suc n) ≡ false = ground arith in
    let (h', four', first) = write_full (suc n) net none 0 s.sequence h (x ∷ p) [] ok four big in
    let drop_len : length (drop max_packet_size (x ∷ p)) ≡ suc n - max_packet_size =
      length-drop max_packet_size (x ∷ p) in
    rw (len, small, live, alone)
      (first
        ∙ ap
            (λ m.
              write_loop (suc n) net none 1 ((s.sequence + 1) % 256)
                (h' ++ drop max_packet_size (x ∷ p)) m
                (header_bytes s.sequence max_packet_size ++ take max_packet_size (x ∷ p)))
            (sym drop_len)
        ∙ write_failed n net 1 ((s.sequence + 1) % 256) h' (drop max_packet_size (x ∷ p)) _ fails
            four')
bad_conn_after_write net alive s h [] ok fails alone four big fits live = absurd (omega arith)
