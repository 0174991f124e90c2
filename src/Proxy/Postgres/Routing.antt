-- ===== src/Proxy/Postgres/Routing.antt =====
-- Where `delegateSelect` of proxy/postgres.go sends a chunk, and what breaks its sessions.
use dbrwproxy.Prelude.{
  ◌⊎◌, ℕ, ◌≡◌, ◌≤◌, ◌<◌, refl, subst, ◌∙◌, Bytes, Bool, true, false, not, ◌||◌, Option, none, some,
  [], ◌∷◌, ◌++◌, append_assoc, arith, length, Bool-cases, inl, inr,
}
use dbrwproxy.Proxy.Choice.{choose_by_weight}
use dbrwproxy.Proxy.Statements.{match_select, no_pattern}
use dbrwproxy.Proxy.Kinds.{
  Kind, unread, reads, kind_of, next_trans, goes_to_main, track-next_trans, main_kind, replica_kind,
}
use dbrwproxy.Proxy.Session.{
  track_transaction, Read, chunk, to_main, to_replica, Status, reading, panicked,
}
use dbrwproxy.Proxy.Postgres.{
  Session, Round, Text, not_query, query, out_of_range, query_text, slice_text, Delegated,
  delegate_select, delegate_text, delegate_read, after_delegate, inbound_read, inbound_round,
  handle_inbound,
}

abbrev text_kind : Text → Kind
text_kind not_query = unread
text_kind out_of_range = unread
text_kind (query sql) = kind_of sql

unfoldable pub chunk_kind : Bytes → Kind
chunk_kind buffer = text_kind (query_text buffer)

-- What `delegateSelect` has done when it does not panic.
pub record Follows (s : Session) (k : Kind) (t : Session) (flag : Bool) : Type 0 where
  pub flagged : flag ≡ not (goes_to_main s.proxy.in_trans k)
  pub flag_after : t.proxy.in_trans ≡ next_trans s.proxy.in_trans k
  pub untouched : (flag ≡ true) ⊎ (t.log ≡ s.log)
  pub going_on : t.status ≡ s.status

abbrev FollowsAny : Session → Kind → Delegated → Type 0
FollowsAny s k none = Unit
FollowsAny s k (some (t, flag)) = Follows s k t flag

read-Follows :
    (s : Session) (sql : Bytes) (db : Option ℕ)
    → s.proxy.in_trans ≡ false
    → FollowsAny s reads (delegate_read s sql db)
unfolding delegate_read
read-Follows s sql none h = tt
read-Follows s sql (some db) h = ground arith

text-Follows :
    (s : Session) (r : Round) (text : Text) → FollowsAny s (text_kind text) (delegate_text s r text)
unfolding delegate_text
text-Follows s r not_query = ground arith
text-Follows s r out_of_range = tt
text-Follows s r (query sql) = elim (Bool-cases (s.proxy.in_trans || not (match_select sql))) [
  | inl main ↦ rw main (record {
    flagged = rw (main_kind s.proxy.in_trans sql main);
    flag_after = track-next_trans s.proxy.in_trans sql;
    untouched = inr refl;
    going_on = refl;
  })
  | inr replica ↦
      let (is_read, outside) = replica_kind s.proxy.in_trans sql replica in
      rw (replica, is_read) (read-Follows s sql _ outside)
]

-- Where `delegateSelect` does not panic, it returns `true`, for a chunk that is not to be forwarded,
-- exactly if the chunk is a simple query with a SELECT and the session is outside a transaction; the
-- flag `inTrans` follows the statements that begin and end one. With `false` the log is as it was.
pub pg_delegate_select-Follows :
    (s t : Session) (r : Round) (buffer : Bytes) (flag : Bool)
    → delegate_select s r buffer ≡ some (t, flag)
    → Follows s (chunk_kind buffer) t flag
unfolding delegate_select chunk_kind
pg_delegate_select-Follows s t r buffer flag h =
    subst (FollowsAny s (text_kind (query_text buffer))) h (text-Follows s r (query_text buffer))

short_out_of_range : (bs : Bytes) → length bs ≤ 3 → query_text (b'Q' ∷ bs) ≡ out_of_range
unfolding query_text slice_text
short_out_of_range bs h = ground arith

read_round :
    (s : Session) (r : Round) (b : Bytes)
    → s.status ≡ reading
    → r.read ≡ chunk b
    → inbound_round s.status s r ≡ after_delegate b r (delegate_select s r b) s
read_round s r b going is_chunk = of_status s.status going ∙ of_read r.read is_chunk
  where
    of_status : (st : Status) → st ≡ reading → inbound_round st s r ≡ inbound_read s r r.read
    of_status st e = unfold inbound_round in rw e

    of_read :
        (read : Read)
        → read ≡ chunk b
        → inbound_read s r read ≡ after_delegate b r (delegate_select s r b) s
    of_read read e = unfold inbound_read in rw e

-- A chunk that starts with `Q` and has fewer than five bytes, such as the first part of a
-- split message, makes the slice expression panic, whatever the session's state.
pub short_query_panics :
    (s : Session) (r : Round) (bs : Bytes)
    → s.status ≡ reading
    → r.read ≡ chunk (b'Q' ∷ bs)
    → length bs ≤ 3
    → (handle_inbound s (r ∷ [])).status ≡ panicked
unfolding handle_inbound delegate_select delegate_text after_delegate
short_query_panics s r bs going is_chunk short =
    rw (read_round s r (b'Q' ∷ bs) going is_chunk, handle_inbound, short_out_of_range bs short)

hidden_round :
    (s : Session) (r : Round) (b sql : Bytes) (c : ℕ)
    → s.status ≡ reading
    → s.proxy.in_trans ≡ false
    → r.read ≡ chunk b
    → r.write_ok ≡ true
    → query_text b ≡ query (c ∷ sql)
    → c < b'A'
    → inbound_round s.status s r
      ≡ record s { proxy = record (s.proxy) { in_trans = false }; log = s.log ++ (to_main b ∷ []) }
unfolding delegate_select delegate_text after_delegate track_transaction
hidden_round s r b sql c going outside at_b written text_b blank =
    read_round s r b going at_b ∙ ground (arith, no_pattern c sql blank)

select_round :
    (s : Session) (q : Round) (d read : Bytes) (db : ℕ)
    → s.status ≡ reading
    → s.proxy.in_trans ≡ false
    → q.read ≡ chunk d
    → query_text d ≡ query read
    → match_select read ≡ true
    → choose_by_weight q.intn s.proxy.total_weight s.proxy.dbs ≡ some db
    → (inbound_round s.status s q).log ≡ s.log ++ (to_replica db 0 read ∷ [])
unfolding delegate_select delegate_text delegate_read after_delegate
select_round s q d read db going outside at_d text_d is_read chosen =
    rw (read_round s q d going at_d) (ground arith)

-- Outside a transaction, a simple query whose text starts with a byte below `A`, such as a blank or a
-- comment's `/`, goes to the main database and leaves the flag, whatever statement follows that byte:
-- a SELECT in the next chunk goes to the replica that is chosen.
pub hidden_begin :
    (s : Session) (r q : Round) (b d sql read : Bytes) (c db : ℕ)
    → s.status ≡ reading
    → s.proxy.in_trans ≡ false
    → r.read ≡ chunk b
    → r.write_ok ≡ true
    → query_text b ≡ query (c ∷ sql)
    → c < b'A'
    → q.read ≡ chunk d
    → query_text d ≡ query read
    → match_select read ≡ true
    → choose_by_weight q.intn s.proxy.total_weight s.proxy.dbs ≡ some db
    → (handle_inbound s (r ∷ q ∷ [])).log ≡ s.log ++ (to_main b ∷ to_replica db 0 read ∷ [])
unfolding handle_inbound
hidden_begin s r q b d sql read c db going outside at_b written text_b blank at_d text_d is_read
      chosen =
    let t : Session = record s {
      proxy = record (s.proxy) { in_trans = false };
      log = s.log ++ (to_main b ∷ []);
    } in
    rw (hidden_round s r b sql c going outside at_b written text_b blank, handle_inbound)
      (select_round t q d read db going refl at_d text_d is_read chosen
        ∙ append_assoc s.log (to_main b ∷ []) (to_replica db 0 read ∷ []))
