-- ===== src/Proxy/MySql/Traces.antt =====
-- Whole sessions of proxy/mysql.go: transactions, and pools that fail.
use dbrwproxy.Prelude.{
  ℕ, zero, suc, ◌≡◌, ◌≢◌, refl, sym, subst, ap, ◌∙◌, Bytes, Bool, true, false, Option, none, some,
  List, [], ◌∷◌, ◌++◌, map, append-nil, append_assoc, arith, get_elem?, set,
}
use dbrwproxy.Pool.{ConnectionPool, PoolError, err, get}
use dbrwproxy.Proxy.Choice.{choose_by_weight}
use dbrwproxy.Proxy.Statements.{match_select}
use dbrwproxy.Proxy.Session.{Read, chunk, to_main, Status, reading}
use dbrwproxy.Proxy.MySql.{
  Session, Round, Text, not_query, query, out_of_range, query_text, delegate_select, delegate_text,
  delegate_read, run_on, answer, after_delegate, inbound_read, inbound_round, handle_inbound,
}
use dbrwproxy.Proxy.Kinds.{
  Kind, unread, begins, ends, next_trans, goes_to_main, track-next_trans, main_of_kind,
}
use dbrwproxy.Proxy.MySql.Routing.{text_kind, chunk_kind, query_text-in_range}

text_main :
    (s : Session) (r : Round) (text : Text)
    → goes_to_main s.proxy.in_trans (text_kind text) ≡ true
    → text ≢ out_of_range
    → delegate_text s r text
      ≡ some (
        record s {
          proxy = record (s.proxy) { in_trans = next_trans s.proxy.in_trans (text_kind text) };
        },
        false,
        none,
      )
unfolding delegate_text
text_main s r not_query h inside = refl
text_main s r out_of_range h inside = absurd (inside refl)
text_main s r (query sql) h inside =
    rw (main_of_kind s.proxy.in_trans sql h, track-next_trans s.proxy.in_trans sql) refl

-- The round reads this chunk, and a write to the main database would succeed.
abbrev pub Sends : Round → Bytes → Type 0
Sends r b = (r.read ≡ chunk b) × (r.write_ok ≡ true)

read_chunk :
    (s : Session) (r : Round) (b : Bytes) (read : Read)
    → read ≡ chunk b
    → inbound_read s r read ≡ after_delegate b r (delegate_select s r b) s
unfolding inbound_read
read_chunk s r b read is_chunk = rw is_chunk

state_reading :
    (st : Status) (s : Session) (r : Round)
    → st ≡ reading
    → inbound_round st s r ≡ inbound_read s r r.read
unfolding inbound_round
state_reading st s r going = rw going

round_reading :
    (st : Status) (s : Session) (r : Round) (b : Bytes)
    → st ≡ reading
    → r.read ≡ chunk b
    → inbound_round st s r ≡ after_delegate b r (delegate_select s r b) s
round_reading st s r b going is_chunk =
    state_reading st s r going ∙ read_chunk s r b r.read is_chunk

inbound_main :
    (s : Session) (r : Round) (b : Bytes)
    → s.status ≡ reading
    → Sends r b
    → goes_to_main s.proxy.in_trans (chunk_kind b) ≡ true
    → inbound_round s.status s r ≡ record s {
      proxy = record (s.proxy) { in_trans = next_trans s.proxy.in_trans (chunk_kind b) };
      log = s.log ++ (to_main b ∷ []);
    }
unfolding after_delegate delegate_select chunk_kind
inbound_main s r b going (is_chunk, written) h =
    round_reading s.status s r b going is_chunk
    ∙ rw (text_main s r (query_text b) h (query_text-in_range b), after_delegate, written)

-- The rounds send these chunks, and none of them ends a transaction.
abbrev pub Continues : List Round → List Bytes → Type 0
Continues [] [] = Unit
Continues [] (b ∷ bs) = ⊥
Continues (r ∷ rs) [] = ⊥
Continues (r ∷ rs) (b ∷ bs) = Sends r b × (chunk_kind b ≢ ends) × Continues rs bs

stays : (k : Kind) → k ≢ ends → next_trans true k ≡ true
stays unread h = refl
stays ends h = absurd (h refl)
stays _ h = refl

all_main : (k : Kind) → goes_to_main true k ≡ true
all_main unread = refl
all_main _ = refl

begun : (in_trans : Bool) (k : Kind) → k ≡ begins → next_trans in_trans k ≡ true
begun in_trans k h = rw h

begins_main : (in_trans : Bool) (k : Kind) → k ≡ begins → goes_to_main in_trans k ≡ true
begins_main in_trans k h = rw h

inside :
    (rs : List Round) (bs : List Bytes) (s : Session)
    → s.status ≡ reading
    → s.proxy.in_trans ≡ true
    → Continues rs bs
    → ((handle_inbound s rs).log ≡ s.log ++ map to_main bs)
      × ((handle_inbound s rs).proxy.in_trans ≡ true)
      × ((handle_inbound s rs).status ≡ reading)
unfolding handle_inbound
inside [] [] s going trans c = (sym (append-nil s.log), trans, going)
inside [] (b ∷ bs) s going trans c = elim c [ ]
inside (r ∷ rs) [] s going trans c = elim c [ ]
inside (r ∷ rs) (b ∷ bs) s going trans (sends, no_end, more) =
    let main =
      subst (λ t. goes_to_main t (chunk_kind b) ≡ true) (sym trans) (all_main (chunk_kind b)) in
    let still =
      subst (λ t. next_trans t (chunk_kind b) ≡ true) (sym trans) (stays (chunk_kind b) no_end) in
    let (logged, trans', going') =
      inside rs bs
        (record s {
          proxy = record (s.proxy) { in_trans = next_trans s.proxy.in_trans (chunk_kind b) };
          log = s.log ++ (to_main b ∷ []);
        })
        going still more in
    rw (inbound_main s r b going sends main, handle_inbound)
      (logged ∙ append_assoc s.log (to_main b ∷ []) (map to_main bs), trans', going')

-- A session that reads a statement which begins a transaction, and then chunks of which none ends
-- one, has written exactly those chunks to the main database, in their order, and asked no replica.
pub transaction_on_main :
    (r : Round) (rs : List Round) (b : Bytes) (bs : List Bytes) (s : Session)
    → s.status ≡ reading
    → Sends r b
    → chunk_kind b ≡ begins
    → Continues rs bs
    → ((handle_inbound s (r ∷ rs)).log ≡ s.log ++ map to_main (b ∷ bs))
      × ((handle_inbound s (r ∷ rs)).proxy.in_trans ≡ true)
      × ((handle_inbound s (r ∷ rs)).status ≡ reading)
unfolding handle_inbound
transaction_on_main r rs b bs s going sends starts more =
    let (logged, trans, going') =
      inside rs bs
        (record s {
          proxy = record (s.proxy) { in_trans = next_trans s.proxy.in_trans (chunk_kind b) };
          log = s.log ++ (to_main b ∷ []);
        })
        going (begun s.proxy.in_trans (chunk_kind b) starts) more in
    rw
      (
        inbound_main s r b going sends (begins_main s.proxy.in_trans (chunk_kind b) starts),
        handle_inbound,
      )
      (logged ∙ append_assoc s.log (to_main b ∷ []) (map to_main bs), trans, going')

-- A pool that can lend nothing: it is closed, or has nothing idle and cannot connect.
abbrev pub Fails : ConnectionPool → Option ℕ → PoolError → Type 0
Fails p dial e = get p dial ≡ (p, err e)

set_same :
    (i : ℕ) (ps : List ConnectionPool) (p : ConnectionPool)
    → get_elem? ps i ≡ some p
    → set ps i p ≡ ps
set_same i [] p h = refl
set_same zero (q ∷ ps) p h = ground arith
set_same (suc i) (q ∷ ps) p h = ap (◌∷◌ q) (set_same i ps p h)

-- Where a session outside a transaction reads a SELECT and the pool of the chosen replica cannot lend
-- a connection, the round of `handleInbound` changes nothing: the chunk goes neither to the main
-- database nor to a replica, and the session reads on.
pub pool_failure_unanswered :
    (s : Session) (r : Round) (b sql : Bytes) (i : ℕ) (p : ConnectionPool) (e : PoolError)
    → s.status ≡ reading
    → r.read ≡ chunk b
    → s.proxy.in_trans ≡ false
    → query_text b ≡ query sql
    → match_select sql ≡ true
    → choose_by_weight r.intn s.proxy.total_weight s.proxy.dbs ≡ some i
    → get_elem? s.pools i ≡ some p
    → Fails p r.dial e
    → handle_inbound s (r ∷ []) ≡ s
unfolding handle_inbound after_delegate delegate_select delegate_text delegate_read run_on answer
pool_failure_unanswered s r b sql i p e going is_chunk outside text read chosen here fails =
    round_reading s.status s r b going is_chunk ∙ ground (arith, set_same i s.pools p here)
