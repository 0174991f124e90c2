-- ===== src/Proxy/Postgres.antt =====
-- proxy/postgres.go: a client's session with a PostgreSQL proxy.
-- A `*sqlx.DB` is a number. What `writeDataRow` writes is in Postgres/Answer; here it is the event
-- `to_replica`, with 0 for the connection, which database/sql keeps to itself.
pub mod Answer
pub mod Routing
mod Runs
use dbrwproxy.Prelude.{
  ℕ, ◌+◌, ◌-◌, Bytes, Bool, true, false, not, ◌||◌, Option, none, some, List, [], ◌∷◌, ◌++◌, ◌==◌,
  ltb, if◌then◌else◌, length, get_elem?, get_or, take, drop,
}
use dbrwproxy.Prelude.Int.{ℤ}
use dbrwproxy.Proxy.Choice.{WeightedDb, choose_by_weight}
use dbrwproxy.Proxy.Statements.{match_select}
use dbrwproxy.Proxy.Session.{
  track_transaction, Read, chunk, eof, failed, Event, to_main, to_replica, Status, reading,
  returned, panicked,
}

pub record PostgresProxy : Type 0 where
  pub dbs : List (WeightedDb ℕ)
  pub total_weight : ℤ
  pub in_trans : Bool

pub record Session : Type 0 where
  pub proxy : PostgresProxy
  pub log : List Event
  pub status : Status

pub record Round : Type 0 where
  pub read : Read
  pub intn : ℕ → ℕ
  pub write_ok : Bool

-- What a chunk is: no simple query, the text of one, or a slice out of range.
pub data Text : Type 0 where
  not_query : Text
  query : Bytes → Text
  out_of_range : Text

-- `string(buffer)[5:end]`
slice_text : Bytes → ℕ → Text
slice_text buffer end = if ltb end 5 then out_of_range else query (drop 5 (take end buffer))

unfoldable pub query_text : Bytes → Text
unfolding slice_text
query_text [] = out_of_range
query_text (b ∷ bs) =
    let buffer = b ∷ bs in
    let end = length buffer in
    if b == b'Q'
    then slice_text buffer (if get_or buffer (end - 1) 1 == 0 then end - 1 else end)
    else not_query

-- The two results of `delegateSelect`, whose error is always nil, with the session after it; `none` is
-- a panic.
abbrev pub Delegated : Type 0
Delegated = Option (Session × Bool)

delegate_read : Session → Bytes → Option ℕ → Delegated
delegate_read s sql none = none
delegate_read s sql (some db) = some (record s { log = s.log ++ (to_replica db 0 sql ∷ []) }, true)

delegate_text : Session → Round → Text → Delegated
unfolding delegate_read
delegate_text s r not_query = some (s, false)
delegate_text s r out_of_range = none
delegate_text s r (query sql) =
    if s.proxy.in_trans || not (match_select sql)
    then some (
      record s { proxy = record (s.proxy) { in_trans = track_transaction s.proxy.in_trans sql } },
      false,
    )
    else delegate_read s sql (choose_by_weight r.intn s.proxy.total_weight s.proxy.dbs)

unfoldable pub delegate_select : Session → Round → Bytes → Delegated
unfolding delegate_text
delegate_select s r buffer = delegate_text s r (query_text buffer)

after_delegate : Bytes → Round → Delegated → Session → Session
after_delegate buffer r none s = record s { status = panicked }
after_delegate buffer r (some (t, true)) s = t
after_delegate buffer r (some (t, false)) s =
    if r.write_ok
    then record t { log = t.log ++ (to_main buffer ∷ []) }
    else record t { status = returned }

inbound_read : Session → Round → Read → Session
unfolding after_delegate
inbound_read s r (chunk buffer) = after_delegate buffer r (delegate_select s r buffer) s
inbound_read s r eof = record s { status = returned }
inbound_read s r failed = record s { status = returned }

inbound_round : Status → Session → Round → Session
unfolding inbound_read
inbound_round reading s r = inbound_read s r r.read
inbound_round returned s r = s
inbound_round panicked s r = s

unfoldable pub handle_inbound : Session → List Round → Session
unfolding inbound_round
handle_inbound s [] = s
handle_inbound s (r ∷ rs) = handle_inbound (inbound_round s.status s r) rs
