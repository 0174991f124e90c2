-- ===== src/Mysql/Buffer/Refine.antt =====
-- `readNext` of mysql/buffer.go, against a socket that is a list of bytes.
use dbrwproxy.Prelude.{
  ℕ, ◌+◌, ◌-◌, ◌*◌, ◌/◌, ◌≤◌, ◌<◌, ◌≡◌, refl, sym, ap, subst, ◌∙◌, Bytes, List, ◌++◌, true, false,
  Bool-cases, inl, inr, none, some, ltb, leb, length, drop, take, length-append, length-take,
  length-drop, length-replicate, take-append_le, drop-append_le, take-take_le, drop-take_le,
  drop-drop, arith,
}
use dbrwproxy.Mysql.Packets as Packets
use dbrwproxy.Mysql.Buffer.{
  Arrival, Place, first, second, own, Buffer, buf, slice_of, target, zeros, grown, place_for,
  install, moved, Filled, filled, broken, waiting, fill_loop, Fetched, fetched, failed, blocked,
  write_at, after_fill, after_refill, fill, advance, read_next,
}
use dbrwproxy.Mysql.Buffer.Filling.{total, Meets, fill_loop-Meets, length-write_at, take-write_at}

-- The indices are inside the slice, where the buffer holds anything.
abbrev pub Fits : Buffer → Type 0
Fits b = 0 < b.held → b.idx + b.held ≤ length (buf b)

-- What is still to be read: the bytes in the buffer, and those that arrive.
abbrev pub stored : Buffer → List Arrival → Bytes
stored b net = take b.held (drop b.idx (buf b)) ++ total net

-- `read_next` on the list of what is still to be read is the specification.
abbrev pub Serves : ℕ → Bytes → Fetched Bytes → Type 0
Serves need s (fetched bytes b net) =
    (Packets.read_next need s ≡ some (bytes, stored b net)) × Fits b
Serves need s (failed b) = Packets.read_next need s ≡ none
Serves need s blocked = Packets.read_next need s ≡ none

length-grown : (need : ℕ) (dest : Bytes) → need ≤ length (grown need dest)
unfolding grown zeros
length-grown need dest = elim (Bool-cases (ltb (length dest) need)) [
  | inl small ↦ rw small (omega (arith, length-replicate {A = ℕ} ((need / 4096 + 1) * 4096) 0))
  | inr enough ↦ rw enough (ground arith)
]

part_length : (b : Buffer) → Fits b → length (take b.held (drop b.idx (buf b))) ≡ b.held
part_length b fits = elim (Bool-cases (ltb 0 b.held)) [
  | inl some_held ↦
      let h = fits (ground arith) in
      omega (arith, length-take b.held (drop b.idx (buf b)), length-drop b.idx (buf b))
  | inr empty ↦
      let z : b.held ≡ 0 = ground arith in omega (arith, length-take b.held (drop b.idx (buf b)))
]

-- What the buffer holds is at the front of the slice that `fill` reads into.
moved_front :
    (need : ℕ) (b : Buffer)
    → Fits b
    → b.held < need
    → (take b.held (moved need b) ≡ take b.held (drop b.idx (buf b)))
      × (need ≤ length (moved need b))
unfolding moved
moved_front need b fits less =
    let part = take b.held (drop b.idx (buf b)) in
    let dest = grown need (slice_of b (target b)) in
    let len = part_length b fits in
    let room : 0 + length part ≤ length dest =
      omega (arith, len, length-grown need (slice_of b (target b))) in
    let at : b.held ≡ 0 + length part = omega (arith, len) in
    (
      ap (λ n. take n (write_at 0 part dest)) at ∙ take-write_at 0 part dest room,
      omega (arith, length-write_at 0 part dest room, length-grown need (slice_of b (target b))),
    )

-- Bytes that the buffer holds are the next bytes of the stream.
advance-Serves :
    (need : ℕ) (b : Buffer) (net : List Arrival)
    → 0 < need
    → need ≤ b.held
    → Fits b
    → Serves need (stored b net) (advance need b net)
unfolding advance Packets.read_next
advance-Serves need b net some_need enough fits =
    let d = drop b.idx (buf b) in
    let len = part_length b fits in
    let e : leb need (length (stored b net)) ≡ true =
      ground (arith, length-append (take b.held d) (total net), len) in
    let front : take need (stored b net) ≡ take need d =
      take-append_le need (take b.held d) (total net) (omega (arith, len))
      ∙ take-take_le need b.held d enough in
    let behind : drop need (stored b net)
        ≡ take (b.held - need) (drop (b.idx + need) (buf b)) ++ total net =
      drop-append_le need (take b.held d) (total net) (omega (arith, len))
      ∙ ap (λ t. t ++ total net)
          (drop-take_le need b.held d enough
            ∙ ap (take (b.held - need)) (drop-drop b.idx need (buf b))) in
    (
      rw e (
          ap (λ t. some (t, drop need (stored b net))) front
          ∙ ap (λ t. some (take need d, t)) behind),
      λ left. let h = fits (omega arith) in omega arith,
    )

installed :
    (p : Place) (mem : Bytes) (b : Buffer) (n : ℕ) (net : List Arrival)
    → n ≤ length mem
    → (stored (record (install p mem b) { held = n }) net ≡ take n mem ++ total net)
      × Fits (record (install p mem b) { held = n })
unfolding install
installed first mem b n net h = (refl, λ _. omega arith)
installed second mem b n net h = (refl, λ _. omega arith)
installed own mem b n net h = (refl, λ _. omega arith)

too_short : (need : ℕ) (s : Bytes) → length s < need → Packets.read_next need s ≡ none
unfolding Packets.read_next
too_short need s h = let e : leb need (length s) ≡ false = ground arith in rw e refl

refill-Serves :
    (need : ℕ) (b : Buffer) (s : Bytes) (o : Filled)
    → 0 < need
    → Meets need s o
    → Serves need s (after_refill need (after_fill need b o))
unfolding after_refill after_fill
refill-Serves need b s (filled mem n net) some_need (enough, room, same) =
    let p = place_for need b in
    let (at, fits) = installed p mem b n net room in
    subst (λ t. Serves need t (advance need (record (install p mem b) { held = n }) net))
      (at ∙ sym same)
      (advance-Serves need (record (install p mem b) { held = n }) net some_need enough fits)
refill-Serves need b s (broken mem) some_need h = too_short need s h
refill-Serves need b s waiting some_need h = too_short need s h

-- For any split of what arrives into reads, `readNext` of at least one byte returns the next bytes of
-- the stream, in order, with the rest of it still to come and the indices inside the slice, where the
-- stream has that many; and where it returns an error or waits for ever the stream has fewer. So it
-- implements a read on a list of bytes, whatever it keeps in its slices.
pub read_next-Serves :
    (need : ℕ) (b : Buffer) (net : List Arrival)
    → 0 < need
    → Fits b
    → Serves need (stored b net) (read_next need b net)
unfolding read_next fill
read_next-Serves need b net some_need fits = elim (Bool-cases (ltb b.held need)) [
  | inl less ↦
      let (front, room) = moved_front need b fits (ground arith) in
      rw less (
        refill-Serves need b (stored b net) (fill_loop need b.held (moved need b) net) some_need (
          subst (λ t. Meets need (t ++ total net) (fill_loop need b.held (moved need b) net)) front
            (fill_loop-Meets need b.held (moved need b) net (ground arith) (ground arith) room)))
  | inr enough ↦ rw enough (advance-Serves need b net some_need (ground arith) fits)
]
