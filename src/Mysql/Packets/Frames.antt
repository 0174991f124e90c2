-- ===== src/Mysql/Packets/Frames.antt =====
-- What `writePacket` of mysql/packets.go puts on the wire.
use dbrwproxy.Prelude.{
  ℕ, zero, suc, ◌+◌, ◌-◌, ◌%◌, ◌≤◌, ◌<◌, ◌≡◌, refl, sym, ap, ap₂, subst, ◌∙◌, Bytes, [], ◌∷◌, ◌++◌,
  append_assoc, true, false, Bool-cases, inl, inr, Option, none, some, leb, ◌==◌, if◌then◌else◌,
  length, take, drop, arith, le→leb, lt→leb, length-drop, length-append, take-append_room,
  drop-append_length,
}
use dbrwproxy.Mysql.Errors.{MysqlError}
use dbrwproxy.Mysql.Packets.{max_packet_size}
use dbrwproxy.Mysql.Packets.Writing.{Outcome, whole, header_bytes, after_write, write_loop}

-- The packets of a payload: full ones, and a last one that is not full.
unfoldable pub frames : ℕ → ℕ → Bytes → Bytes
frames zero sequence payload = []
frames (suc fuel) sequence payload =
    let rest = frames fuel ((sequence + 1) % 256) (drop max_packet_size payload) in
    if leb max_packet_size (length payload)
    then header_bytes sequence max_packet_size ++ take max_packet_size payload ++ rest
    else header_bytes sequence (length payload) ++ payload

-- The sequence number behind them.
unfoldable pub frames_end : ℕ → ℕ → ℕ → ℕ
frames_end zero sequence n = sequence
frames_end (suc fuel) sequence n =
    let rest = frames_end fuel ((sequence + 1) % 256) (n - max_packet_size) in
    if leb max_packet_size n then rest else (sequence + 1) % 256

-- Dropping as much as the payload has leaves as many bytes in front of the rest of it as before.
drop_room :
    (n : ℕ) (h p : Bytes)
    → n ≤ length p
    → (h' : Bytes) × (drop n (h ++ p) ≡ h' ++ drop n p) × (length h' ≡ length h)
drop_room zero h p le = (h, refl, refl)
drop_room (suc n) h [] le = absurd (omega arith)
drop_room (suc n) [] (y ∷ p) le = ([], refl, refl)
drop_room (suc n) (x ∷ h) (y ∷ p) le =
    let (h', e, len) = drop_room n (h ++ (y ∷ [])) p (omega arith) in
    (h', ap (drop n) (sym (append_assoc h (y ∷ []) p)) ∙ e, omega (arith, length-append h (y ∷ [])))

pub drop_head : (h p : Bytes) → length h ≡ 4 → drop 4 (h ++ p) ≡ p
drop_head h p four = subst (λ n. drop n (h ++ p) ≡ p) four (drop-append_length h p)

-- The bytes of one write.
one_frame :
    (sequence n : ℕ) (p : Bytes)
    → take (4 + n) (header_bytes sequence n ++ p) ≡ header_bytes sequence n ++ take n p
one_frame sequence n p = take-append_room (header_bytes sequence n) p n

take_all : (p : Bytes) → take (length p) p ≡ p
take_all [] = refl
take_all (x ∷ p) = ap (◌∷◌ x) (take_all p)

write_last :
    (f : ℕ) (net : ℕ → Outcome) (c : Option MysqlError) (k sequence : ℕ) (h p sent : Bytes)
    → net k ≡ whole
    → length h ≡ 4
    → length p < max_packet_size
    → write_loop (suc f) net c k sequence (h ++ p) (length p) sent
      ≡ some (sent ++ frames (suc f) sequence p, frames_end (suc f) sequence (length p), none)
unfolding write_loop after_write frames frames_end
write_last f net c k sequence h p sent ok four small =
    let last : leb max_packet_size (length p) ≡ false = lt→leb max_packet_size (length p) small in
    let other : (length p == max_packet_size) ≡ false = ground arith in
    rw (ok, last, drop_head h p four, other, one_frame sequence (length p) p, take_all p) refl

write_step :
    (f : ℕ) (net : ℕ → Outcome) (c : Option MysqlError) (k sequence : ℕ) (h p sent : Bytes)
    → net k ≡ whole
    → length h ≡ 4
    → max_packet_size ≤ length p
    → let bytes = header_bytes sequence max_packet_size ++ p in
      write_loop (suc f) net c k sequence (h ++ p) (length p) sent
      ≡ write_loop f net c
          (k + 1)
          ((sequence + 1) % 256)
          (drop max_packet_size bytes)
          (length p - max_packet_size)
          (sent ++ take (4 + max_packet_size) bytes)
unfolding write_loop after_write
write_step f net c k sequence h p sent ok four big =
    let full : leb max_packet_size (length p) ≡ true = le→leb max_packet_size (length p) big in
    rw (ok, full, drop_head h p four) refl

pub write_full :
    (f : ℕ) (net : ℕ → Outcome) (c : Option MysqlError) (k sequence : ℕ) (h p sent : Bytes)
    → net k ≡ whole
    → length h ≡ 4
    → max_packet_size ≤ length p
    → (h' : Bytes) × (length h' ≡ 4)
      × (write_loop (suc f) net c k sequence (h ++ p) (length p) sent
          ≡ write_loop f net c
              (k + 1)
              ((sequence + 1) % 256)
              (h' ++ drop max_packet_size p)
              (length p - max_packet_size)
              (sent ++ (header_bytes sequence max_packet_size ++ take max_packet_size p)))
write_full f net c k sequence h p sent ok four big =
    let (h', e, len) = drop_room max_packet_size (header_bytes sequence max_packet_size) p big in
    (
      h',
      len,
      write_step f net c k sequence h p sent ok four big
          ∙ ap₂
              (λ b t.
                write_loop f net c (k + 1) ((sequence + 1) % 256) b (length p - max_packet_size)
                  (sent ++ t))
              e (one_frame sequence max_packet_size p),
    )

frames_split :
    (f sequence : ℕ) (p : Bytes)
    → max_packet_size ≤ length p
    → let next = (sequence + 1) % 256 in
      (frames (suc f) sequence p
        ≡ (header_bytes sequence max_packet_size ++ take max_packet_size p)
          ++ frames f next (drop max_packet_size p))
      × (frames_end (suc f) sequence (length p) ≡ frames_end f next (length p - max_packet_size))
unfolding frames frames_end
frames_split f sequence p big =
    let full : leb max_packet_size (length p) ≡ true = le→leb max_packet_size (length p) big in
    (rw full refl, rw full refl)

-- With as much fuel as there are bytes, and one more, the loop sends the packets of the payload.
pub write_frames :
    (f : ℕ) (net : ℕ → Outcome) (c : Option MysqlError) (k sequence : ℕ) (h p sent : Bytes)
    → ((i : ℕ) → net i ≡ whole)
    → length h ≡ 4
    → length p < f
    → write_loop f net c k sequence (h ++ p) (length p) sent
      ≡ some (sent ++ frames f sequence p, frames_end f sequence (length p), none)
write_frames zero net c k sequence h p sent ok four enough = absurd (omega arith)
write_frames (suc f) net c k sequence h p sent ok four enough =
    elim (Bool-cases (leb max_packet_size (length p))) [
      | inl full ↦
          let big : max_packet_size ≤ length p = ground arith in
          let d = drop max_packet_size p in
          let next = (sequence + 1) % 256 in
          let first = header_bytes sequence max_packet_size ++ take max_packet_size p in
          let drop_len : length d ≡ length p - max_packet_size = length-drop max_packet_size p in
          let (h', four', e) = write_full f net c k sequence h p sent (ok k) four big in
          let (shape, end) = frames_split f sequence p big in
          e
          ∙ ap (λ n. write_loop f net c (k + 1) next (h' ++ d) n (sent ++ first)) (sym drop_len)
          ∙ write_frames f net c (k + 1) next h' d (sent ++ first) ok four' (omega arith)
          ∙ ap₂ (λ bytes last. some (bytes, last, none))
              (append_assoc sent first (frames f next d) ∙ ap (λ q. sent ++ q) (sym shape))
              (ap (frames_end f next) drop_len ∙ sym end)
      | inr last ↦ write_last f net c k sequence h p sent (ok k) four (ground arith)
    ]
