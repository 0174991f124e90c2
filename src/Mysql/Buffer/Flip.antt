-- ===== src/Mysql/Buffer/Flip.antt =====
-- `flip` of mysql/buffer.go: the slice that it puts into the background.
use dbrwproxy.Prelude.{
  ℕ, ◌+◌, ◌-◌, ◌%◌, ◌≡◌, refl, sym, ap, subst, ◌∙◌, Bytes, List, Bool, true, false, not, Bool-cases,
  inl, inr, ltb, if◌then◌else◌, ◌==◌, arith,
}
use dbrwproxy.Mysql.Buffer.{
  Arrival, Place, first, second, own, Buffer, buf, slice_of, target, place_for, install, moved,
  Filled, filled, broken, waiting, fill_loop, flip, Fetched, fetched, failed, blocked, after_fill,
  after_refill, fill, advance, read_next,
}

-- The parity that chooses the slice of `dbuf` for the next `fill`.
abbrev even : Buffer → Bool
even b = b.flipcnt % 2 == 0

abbrev place : Bool → Place
place t = if t then first else second

-- The slice at the place of the other parity, and the counter, are as in `b`.
abbrev Kept : Buffer → Buffer → Type 0
Kept b d =
    (slice_of d (place (not (even b))) ≡ slice_of b (place (not (even b))))
    × (d.flipcnt ≡ b.flipcnt)

installed_kept :
    (t u : Bool) (mem : Bytes) (b : Buffer)
    → (slice_of (install (if u then own else place t) mem b) (place (not t))
        ≡ slice_of b (place (not t)))
      × ((install (if u then own else place t) mem b).flipcnt ≡ b.flipcnt)
unfolding install
installed_kept true true mem b = (refl, refl)
installed_kept true false mem b = (refl, refl)
installed_kept false true mem b = (refl, refl)
installed_kept false false mem b = (refl, refl)

abbrev KeptBy : {A : Type 0} → Buffer → Fetched A → Type 0
KeptBy b (fetched a d net) = Kept b d
KeptBy b (failed d) = Kept b d
KeptBy b blocked = Unit {0}

after_fill_kept : (need : ℕ) (b : Buffer) (o : Filled) → KeptBy b (after_fill need b o)
unfolding after_fill place_for
after_fill_kept need b (filled mem n net) = installed_kept (even b) _ mem b
after_fill_kept need b (broken mem) = installed_kept (even b) _ mem b
after_fill_kept need b waiting = tt

moves :
    (n k : ℕ) (d : Buffer) (p : Place) → slice_of (record d { idx = n; held = k }) p ≡ slice_of d p
moves n k d first = refl
moves n k d second = refl
moves n k d own = refl

after_refill_kept :
    (need : ℕ) (b : Buffer) (o : Fetched (Unit {0})) → KeptBy b o → KeptBy b (after_refill need o)
unfolding after_refill advance
after_refill_kept need b (fetched a d net) h =
    (moves (d.idx + need) (d.held - need) d (place (not (even b))) ∙ h.0, h.1)
after_refill_kept need b (failed d) h = h
after_refill_kept need b blocked h = tt

read_next_kept : (need : ℕ) (b : Buffer) (net : List Arrival) → KeptBy b (read_next need b net)
unfolding read_next fill advance
read_next_kept need b net = elim (Bool-cases (ltb b.held need)) [
  | inl less ↦ rw less (
      after_refill_kept need b _
        (after_fill_kept need b (fill_loop need b.held (moved need b) net)))
  | inr enough ↦ rw enough (moves (b.idx + need) (b.held - need) b (place (not (even b))), refl)
]

-- Reads one after another, with whatever arrives.
pub data Reads : Buffer → Buffer → Type 0 where
  finished : (b : Buffer) → Reads b b
  one_more :
      {b e : Buffer} (need : ℕ) (net rest : List Arrival) (bytes : Bytes) (d : Buffer)
      → read_next need b net ≡ fetched bytes d rest
      → Reads d e
      → Reads b e

Reads-Kept : {b d : Buffer} → Reads b d → Kept b d
Reads-Kept (finished b) = (refl, refl)
Reads-Kept (one_more {b} {e} need net rest bytes d run more) =
    let (same, count) = subst (KeptBy b) run (read_next_kept need b net) in
    let (same', count') = Reads-Kept more in
    (
      subst (λ f. slice_of e (place (not (f % 2 == 0))) ≡ slice_of d (place (not (f % 2 == 0))))
            count same'
          ∙ same,
      count' ∙ count,
    )

flip_parity : (b : Buffer) → even (flip b) ≡ not (even b)
unfolding flip
flip_parity b = elim (Bool-cases (even b)) [
  | inl e ↦ rw e (ground arith)
  | inr e ↦ rw e (ground arith)
]

twice_not : (t : Bool) → not (not t) ≡ t
twice_not true = refl
twice_not false = refl

flip_slice : (b : Buffer) (p : Place) → slice_of (flip b) p ≡ slice_of b p
unfolding flip
flip_slice b first = refl
flip_slice b second = refl
flip_slice b own = refl

-- Once `buf`, a slice of `dbuf`, is put into the background by `flip`, no number of calls of `readNext`
-- changes a byte of it: the slices that were returned before keep their contents until the next flip.
pub flip-Reads_kept :
    (b d : Buffer) → b.active ≡ target b → Reads (flip b) d → slice_of d b.active ≡ buf b
unfolding flip
flip-Reads_kept b d foreground reads =
    let (same, _) = Reads-Kept reads in
    let at : place (not (even (flip b))) ≡ b.active =
      ap (λ t. place (not t)) (flip_parity b) ∙ ap place (twice_not (even b)) ∙ sym foreground in
    subst (λ p. slice_of d p ≡ slice_of (flip b) p) at same ∙ flip_slice b b.active
