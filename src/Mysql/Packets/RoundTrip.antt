-- ===== src/Mysql/Packets/RoundTrip.antt =====
-- A payload of mysql/packets.go between `writePacket` and `readPacket`.
use dbrwproxy.Prelude.{
  ℕ, zero, suc, ◌+◌, ◌-◌, ◌%◌, ◌≤◌, ◌<◌, ◌≡◌, Bytes, [], ◌++◌, Bool, false, Bool-cases, inl, inr,
  Option, none, some, ltb, leb, length, take, drop, arith, length-take, length-drop, length-append,
  ◌&&◌, not,
}
use dbrwproxy.Mysql.Errors.{MysqlError}
use dbrwproxy.Mysql.Packets.{packet, read_packet, max_packet_size}
use dbrwproxy.Mysql.Packets.Frames.{frames, frames_end, write_frames}
use dbrwproxy.Mysql.Packets.Writing.{Sink, Outcome, whole, write_packet}
use dbrwproxy.Mysql.Packets.Joining.{read_frames}

pub length-frames :
    (f sequence : ℕ) (p : Bytes) → length p < f → length p ≤ length (frames f sequence p)
unfolding frames
length-frames zero sequence p h = absurd (omega arith)
length-frames (suc f) sequence p h = elim (Bool-cases (leb max_packet_size (length p))) [
  | inl full ↦
      let t = take max_packet_size p in
      let d = drop max_packet_size p in
      let big : max_packet_size ≤ length p = ground arith in
      let more =
        length-frames f ((sequence + 1) % 256) d (omega (arith, length-drop max_packet_size p)) in
      rw full (
        omega (
          arith,
          more,
          length-drop max_packet_size p,
          length-take max_packet_size p,
          length-append t (frames f ((sequence + 1) % 256) d),
        ))
  | inr last ↦ rw last (omega arith)
]

pub write_packet-frames :
    (net : ℕ → Outcome) (alive : Bool) (s : Sink) (h p : Bytes)
    → ((i : ℕ) → net i ≡ whole)
    → length h ≡ 4
    → length p ≤ s.max_allowed_packet
    → (s.reset && not alive) ≡ false
    → write_packet net alive s (h ++ p)
      ≡ some (
        frames (suc (length p)) s.sequence p,
        frames_end (suc (length p)) s.sequence (length p),
        none,
      )
unfolding write_packet
write_packet-frames net alive s h p ok four fits live =
    let len : length (h ++ p) - 4 ≡ length p = omega (arith, length-append h p) in
    let small : ltb s.max_allowed_packet (length p) ≡ false = ground arith in
    rw (len, small, live)
      (write_frames (suc (length p)) net s.canceled 0 s.sequence h p [] ok four (omega arith))

-- A payload that is not empty and not above `maxAllowedPacket`, in a slice with four bytes of room in
-- front, on a connection that is fresh or alive: where each write goes through, `writePacket`
-- returns without an error, and what it sent, whatever follows it, is read by a `readPacket` with the
-- same sequence number as that payload, also where it is split into several packets. Both ends
-- then agree on the next sequence number.
pub read-write_packet :
    (net : ℕ → Outcome) (alive : Bool) (s : Sink) (h p rest : Bytes) (c : Option MysqlError)
    → ((i : ℕ) → net i ≡ whole)
    → length h ≡ 4
    → 0 < length p
    → length p ≤ s.max_allowed_packet
    → (s.reset && not alive) ≡ false
    → (sent : Bytes) × (last : ℕ) × (write_packet net alive s (h ++ p) ≡ some (sent, last, none))
      × (read_packet (record { incoming = sent ++ rest; sequence = s.sequence; canceled = c })
          ≡ some (packet (record { incoming = rest; sequence = last; canceled = c }) p))
unfolding read_packet
read-write_packet net alive s h p rest c ok four positive fits live =
    let n = suc (length p) in
    let sent = frames n s.sequence p in
    (
      sent,
      frames_end n s.sequence (length p),
      write_packet-frames net alive s h p ok four fits live,
      read_frames n (suc (length (sent ++ rest))) none s.sequence p rest c (omega arith)
          (omega (arith, length-append sent rest, length-frames n s.sequence p)) positive,
    )
