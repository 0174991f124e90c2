-- ===== src/Mysql/Packets/Joining.antt =====
-- How `readPacket` of mysql/packets.go joins the parts of a payload.
use dbrwproxy.Prelude.{
  ℕ, zero, suc, ◌+◌, ◌-◌, ◌%◌, ◌≤◌, ◌<◌, ◌≡◌, refl, sym, ap, ap₂, ◌∙◌, Bytes, [], ◌∷◌, ◌++◌,
  append_assoc, append-nil, true, false, Bool-cases, inl, inr, Option, none, some, leb, length,
  take, drop, arith, le→leb, lt→leb, take-append-drop, length-take, length-drop, length-append,
  take-append_length, drop-append_length,
}
use dbrwproxy.Mysql.Errors.{MysqlError}
use dbrwproxy.Mysql.Packets.{
  Stream, PacketRead, packet, done, again, read_next, packet_length, read_body, read_header,
  read_loop, max_packet_size, append_to,
}
use dbrwproxy.Mysql.Packets.Frames.{frames, frames_end}
use dbrwproxy.Mysql.Packets.Writing.{header_bytes}

abbrev pub stream : Bytes → ℕ → Option MysqlError → Stream
stream bytes sequence canceled = record {
  incoming = bytes;
  sequence = sequence;
  canceled = canceled;
}

read_next-append : (d r : Bytes) → read_next (length d) (d ++ r) ≡ some (d, r)
unfolding read_next
read_next-append d r =
    let fits : leb (length d) (length (d ++ r)) ≡ true = ground (arith, length-append d r) in
    rw (fits, take-append_length d r, drop-append_length d r) refl

packet_length-header :
    (sequence n : ℕ) → n ≤ max_packet_size → packet_length (header_bytes sequence n) ≡ n
packet_length-header sequence n h = omega arith

header_read :
    (prev : Option Bytes) (sequence n : ℕ) (r : Bytes) (c : Option MysqlError)
    → n ≤ max_packet_size
    → 0 < n
    → read_header prev
        (stream (header_bytes sequence n ++ r) sequence c)
        (read_next 4 (header_bytes sequence n ++ r))
      ≡ read_body prev n (stream r ((sequence + 1) % 256) c) (read_next n r)
unfolding read_header
header_read prev sequence n r c h positive =
    rw (read_next-append (header_bytes sequence n) r, packet_length-header sequence n h)
      (ground arith)

-- A last part behind parts before it: of length 0 only if there were some.
abbrev pub Ends : Option Bytes → Bytes → Type 0
Ends none p = 0 < length p
Ends (some d) p = Unit {0}

loop_done :
    (fuel : ℕ) (prev : Option Bytes) (s : Stream) (p : PacketRead)
    → read_header prev s (read_next 4 s.incoming) ≡ done p
    → read_loop (suc fuel) prev s ≡ some p
unfolding read_loop
loop_done fuel prev s p e = rw (e, read_loop) refl

loop_again :
    (fuel : ℕ) (prev : Option Bytes) (s t : Stream) (d : Bytes)
    → read_header prev s (read_next 4 s.incoming) ≡ again d t
    → read_loop (suc fuel) prev s ≡ read_loop fuel (some d) t
unfolding read_loop
loop_again fuel prev s t d e = rw (e, read_loop) refl

body_last :
    (prev : Option Bytes) (p rest : Bytes) (s : Stream)
    → length p < max_packet_size
    → read_body prev (length p) s (read_next (length p) (p ++ rest))
      ≡ done (packet (record s { incoming = rest }) (append_to prev p))
unfolding read_body
body_last prev p rest s small = rw (read_next-append p rest) (ground arith)

body_full :
    (prev : Option Bytes) (p rest : Bytes) (s : Stream)
    → length p ≡ max_packet_size
    → read_body prev (length p) s (read_next (length p) (p ++ rest))
      ≡ again (append_to prev p) (record s { incoming = rest })
unfolding read_body
body_full prev p rest s full = rw (read_next-append p rest) (ground arith)

header_empty :
    (d : Bytes) (sequence : ℕ) (r : Bytes) (c : Option MysqlError)
    → read_header
        (some d)
        (stream (header_bytes sequence 0 ++ r) sequence c)
        (read_next 4 (header_bytes sequence 0 ++ r))
      ≡ done (packet (stream r ((sequence + 1) % 256) c) d)
unfolding read_header
header_empty d sequence r c = rw (read_next-append (header_bytes sequence 0) r) (ground arith)

read_last :
    (prev : Option Bytes) (sequence : ℕ) (p rest : Bytes) (c : Option MysqlError) (fuel : ℕ)
    → length p < max_packet_size
    → Ends prev p
    → read_loop
        (suc fuel)
        prev
        (stream (header_bytes sequence (length p) ++ (p ++ rest)) sequence c)
      ≡ some (packet (stream rest ((sequence + 1) % 256) c) (append_to prev p))
read_last prev sequence (x ∷ p) rest c fuel small ends =
    let n = length (x ∷ p) in
    let r = (x ∷ p) ++ rest in
    loop_done fuel prev (stream (header_bytes sequence n ++ r) sequence c) _ (
      header_read prev sequence n r c (omega arith) (omega arith)
      ∙ body_last prev (x ∷ p) rest (stream r ((sequence + 1) % 256) c) small)
read_last none sequence [] rest c fuel small ends = absurd (omega arith)
read_last (some d) sequence [] rest c fuel small ends =
    loop_done fuel (some d) (stream (header_bytes sequence 0 ++ rest) sequence c) _
      (header_empty d sequence rest c)
    ∙ ap (λ e. some (packet (stream rest ((sequence + 1) % 256) c) e)) (sym (append-nil d))

read_full :
    (prev : Option Bytes) (sequence : ℕ) (p rest : Bytes) (c : Option MysqlError) (fuel : ℕ)
    → length p ≡ max_packet_size
    → read_loop
        (suc fuel)
        prev
        (stream (header_bytes sequence (length p) ++ (p ++ rest)) sequence c)
      ≡ read_loop fuel (some (append_to prev p)) (stream rest ((sequence + 1) % 256) c)
read_full prev sequence p rest c fuel full =
    let r = p ++ rest in
    loop_again fuel prev (stream (header_bytes sequence (length p) ++ r) sequence c) _ _ (
      header_read prev sequence (length p) r c (omega arith) (omega arith)
      ∙ body_full prev p rest (stream r ((sequence + 1) % 256) c) full)

append_to_assoc :
    (prev : Option Bytes) (t d p : Bytes)
    → t ++ d ≡ p
    → append_to (some (append_to prev t)) d ≡ append_to prev p
append_to_assoc none t d p e = e
append_to_assoc (some x) t d p e = append_assoc x t d ∙ ap (λ q. x ++ q) e

frames_full :
    (f sequence : ℕ) (p rest : Bytes)
    → max_packet_size ≤ length p
    → let t = take max_packet_size p in
      (length t ≡ max_packet_size)
      × (frames (suc f) sequence p ++ rest
          ≡ header_bytes sequence (length t)
            ++ (t ++ (frames f ((sequence + 1) % 256) (drop max_packet_size p) ++ rest)))
unfolding frames
frames_full f sequence p rest h =
    let t = take max_packet_size p in
    let len : length t ≡ max_packet_size = omega (arith, length-take max_packet_size p) in
    let full : leb max_packet_size (length p) ≡ true = le→leb max_packet_size (length p) h in
    (
      len,
      rw (full, len)
          (ap (λ q. header_bytes sequence max_packet_size ++ q)
            (append_assoc t (frames f ((sequence + 1) % 256) (drop max_packet_size p)) rest)),
    )

frames_last :
    (f sequence : ℕ) (p rest : Bytes)
    → length p < max_packet_size
    → frames (suc f) sequence p ++ rest ≡ header_bytes sequence (length p) ++ (p ++ rest)
unfolding frames
frames_last f sequence p rest h =
    let last : leb max_packet_size (length p) ≡ false = lt→leb max_packet_size (length p) h in
    rw last refl

frames_end_full :
    (f sequence n : ℕ)
    → max_packet_size ≤ n
    → frames_end (suc f) sequence n ≡ frames_end f ((sequence + 1) % 256) (n - max_packet_size)
unfolding frames_end
frames_end_full f sequence n h =
    let full : leb max_packet_size n ≡ true = le→leb max_packet_size n h in rw full refl

frames_end_last :
    (f sequence n : ℕ) → n < max_packet_size → frames_end (suc f) sequence n ≡ (sequence + 1) % 256
unfolding frames_end
frames_end_last f sequence n h =
    let last : leb max_packet_size n ≡ false = lt→leb max_packet_size n h in rw last refl

pub read_frames :
    (f g : ℕ) (prev : Option Bytes) (sequence : ℕ) (p rest : Bytes) (c : Option MysqlError)
    → length p < f
    → f ≤ g
    → Ends prev p
    → read_loop g prev (stream (frames f sequence p ++ rest) sequence c)
      ≡ some (packet (stream rest (frames_end f sequence (length p)) c) (append_to prev p))
read_frames zero g prev sequence p rest c enough le ends = absurd (omega arith)
read_frames (suc f) zero prev sequence p rest c enough le ends = absurd (omega arith)
read_frames (suc f) (suc g) prev sequence p rest c enough le ends =
    elim (Bool-cases (leb max_packet_size (length p))) [
      | inl full ↦
          let big : max_packet_size ≤ length p = ground arith in
          let t = take max_packet_size p in
          let d = drop max_packet_size p in
          let next = (sequence + 1) % 256 in
          let (len, shape) = frames_full f sequence p rest big in
          let drop_len : length d ≡ length p - max_packet_size = length-drop max_packet_size p in
          ap (λ b. read_loop (suc g) prev (stream b sequence c)) shape
          ∙ read_full prev sequence t (frames f next d ++ rest) c g len
          ∙ read_frames f g (some (append_to prev t)) next d rest c (omega arith) (omega arith) tt
          ∙ ap₂ (λ q e. some (packet (stream rest e c) q))
              (append_to_assoc prev t d p (take-append-drop max_packet_size p))
              (ap (frames_end f next) drop_len ∙ sym (frames_end_full f sequence (length p) big))
      | inr last ↦
          let small : length p < max_packet_size = ground arith in
          ap (λ b. read_loop (suc g) prev (stream b sequence c))
            (frames_last f sequence p rest small)
          ∙ read_last prev sequence p rest c g small ends
          ∙ ap (λ e. some (packet (stream rest e c) (append_to prev p)))
              (sym (frames_end_last f sequence (length p) small))
    ]
