-- ===== src/Proxy/Outbound.antt =====
-- `handleOutbound` of proxy/mysql.go and of proxy/postgres.go: what the main database sends goes on to
-- the client.
use dbrwproxy.Prelude.{
  suc, ◌≡◌, refl, sym, ap, subst, arith, ◌∙◌, Bytes, Bool, true, false, List, [], ◌∷◌, ◌++◌,
  append_assoc, append-nil, ltb, length, if◌then◌else◌, inl, inr, ◌⊎◌,
}
use dbrwproxy.Proxy.Session.{Read, chunk, eof, failed, Status, reading, returned, panicked}

-- One round: the read from the main database, and whether the write to the client succeeds.
pub record Passage : Type 0 where
  pub read : Read
  pub write_ok : Bool

-- What the client was sent, and whether the loop goes on.
pub record Outbound : Type 0 where
  pub sent : Bytes
  pub status : Status

outbound_read : Outbound → Bool → Read → Outbound
outbound_read o write_ok (chunk buff) =
    if ltb (length buff) 1
    then o
    else if write_ok
    then record o { sent = o.sent ++ buff }
    else record o { status = returned }
outbound_read o write_ok eof = record o { status = returned }
outbound_read o write_ok failed = record o { status = returned }

outbound_round : Status → Outbound → Passage → Outbound
unfolding outbound_read
outbound_round reading o r = outbound_read o r.write_ok r.read
outbound_round returned o r = o
outbound_round panicked o r = o

unfoldable pub handle_outbound : Outbound → List Passage → Outbound
unfolding outbound_round
handle_outbound o [] = o
handle_outbound o (r ∷ rs) = handle_outbound (outbound_round o.status o r) rs

-- The bytes that the main database sends in these rounds.
abbrev bytes_of : Read → Bytes
bytes_of (chunk buff) = buff
bytes_of eof = []
bytes_of failed = []

unfoldable pub stream_of : List Passage → Bytes
stream_of [] = []
stream_of (r ∷ rs) = bytes_of r.read ++ stream_of rs

stopped : (o : Outbound) (rs : List Passage) → o.status ≡ returned → handle_outbound o rs ≡ o
unfolding handle_outbound outbound_round
stopped o [] h = refl
stopped o (r ∷ rs) h = ap (λ st. handle_outbound (outbound_round st o r) rs) h ∙ stopped o rs h

-- What a loop has sent in some rounds, and what it has not.
abbrev pub Forwards : Outbound → List Passage → Outbound → Type 0
Forwards o rs t =
    (lost : Bytes) × (o.sent ++ stream_of rs ≡ t.sent ++ lost)
    × ((lost ≡ []) ⊎ (t.status ≡ returned))

-- A round that goes on has sent what it read; one that ends the loop has sent nothing.
abbrev Moves : Outbound → Bytes → Outbound → Type 0
Moves o bytes t =
    ((t.status ≡ reading) × (t.sent ≡ o.sent ++ bytes))
    ⊎ ((t.status ≡ returned) × (t.sent ≡ o.sent))

read_Moves :
    (o : Outbound) (write_ok : Bool) (read : Read)
    → o.status ≡ reading
    → Moves o (bytes_of read) (outbound_read o write_ok read)
unfolding outbound_read
read_Moves o write_ok (chunk []) going = inl (going, sym (append-nil o.sent))
read_Moves o true (chunk (b ∷ bs)) going =
    let some_byte : ltb (suc (length bs)) 1 ≡ false = ground arith in
    rw some_byte (inl (going, refl))
read_Moves o false (chunk (b ∷ bs)) going =
    let some_byte : ltb (suc (length bs)) 1 ≡ false = ground arith in
    rw some_byte (inr (refl, refl))
read_Moves o write_ok eof going = inr (refl, refl)
read_Moves o write_ok failed going = inr (refl, refl)

-- As long as `handleOutbound` goes on it has sent the client exactly the bytes that the main database
-- sent, in order; where it has returned, on an error of either side, it has sent a front of them.
pub handle_outbound-Forwards :
    (o : Outbound) (rs : List Passage) → o.status ≡ reading → Forwards o rs (handle_outbound o rs)
unfolding handle_outbound stream_of outbound_round
handle_outbound-Forwards o [] going = ([], refl, inl refl)
handle_outbound-Forwards o (r ∷ rs) going =
    let t = outbound_read o r.write_ok r.read in
    let first : handle_outbound o (r ∷ rs) ≡ handle_outbound t rs =
      ap (λ st. handle_outbound (outbound_round st o r) rs) going in
    subst (Forwards o (r ∷ rs)) (sym first) (elim (read_Moves o r.write_ok r.read going) [
      | inl (on, sent) ↦
          let (lost, e, none_lost) = handle_outbound-Forwards t rs on in
          (
            lost,
            sym (append_assoc o.sent (bytes_of r.read) (stream_of rs))
                ∙ ap (λ b. b ++ stream_of rs) (sym sent)
                ∙ e,
            none_lost,
          )
      | inr (off, sent) ↦
          let same = stopped t rs off in
          (
            bytes_of r.read ++ stream_of rs,
            ap (λ b. b ++ (bytes_of r.read ++ stream_of rs))
                (sym sent ∙ ap (λ x. x.sent) (sym same)),
            inr (ap (λ x. x.status) same ∙ off),
          )
    ])
