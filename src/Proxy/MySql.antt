-- ===== src/Proxy/MySql.antt =====
-- proxy/mysql.go: a client's session with a MySQL proxy.
-- The pools are shared by all sessions: they stand in a store, and `db` is an index into it. What
-- `writeDataRow` does with its connection is the event `to_replica` here, and modelled in Mysql/Query:
-- whether it returns is an outcome that the environment gives.
pub mod Routing
pub mod Traces
pub mod Returns
mod Runs
use dbrwproxy.Prelude.{
  ℕ, ◌+◌, Bytes, Bool, true, false, not, ◌||◌, ◌&&◌, Option, none, some, List, [], ◌∷◌, ◌++◌, ◌==◌,
  leb, ltb, if◌then◌else◌, length, get_elem?, set, drop, codes, ◌≡◌, refl,
}
use dbrwproxy.Prelude.Int.{ℤ}
use dbrwproxy.Pool.{ConnectionPool, Got, PoolError, ok, err, get, put}
use dbrwproxy.Proxy.Choice.{WeightedDb, choose_by_weight}
use dbrwproxy.Proxy.Statements.{match_select}
use dbrwproxy.Proxy.Session.{
  track_transaction, Read, chunk, eof, failed, Event, to_main, to_replica, Status, reading,
  returned, panicked,
}

pub record MysqlProxy : Type 0 where
  pub dbs : List (WeightedDb ℕ)
  pub total_weight : ℤ
  pub in_trans : Bool

-- A session with the pools, and what it has done, oldest first.
pub record Session : Type 0 where
  pub proxy : MysqlProxy
  pub pools : List ConnectionPool
  pub log : List Event
  pub status : Status

-- What the environment does in one round of `handleInbound`: the read, the number that rand.Intn
-- draws, the outcome of a `Connect`, whether `writeDataRow` returns for a statement on a connection
-- (Mysql/Query has when it does), and whether the write to the main database succeeds.
pub record Round : Type 0 where
  pub read : Read
  pub intn : ℕ → ℕ
  pub dial : Option ℕ
  pub serves : ℕ → Bytes → Bool
  pub write_ok : Bool

-- strings.Trim(s, " \r\n")
is_cut : ℕ → Bool
is_cut c = c == b' ' || c == b'\r' || c == b'\n'

trim_left : Bytes → Bytes
unfolding is_cut
trim_left [] = []
trim_left (c ∷ s) = let rest = trim_left s in if is_cut c then rest else c ∷ s

trim_end : ℕ → Bytes → Bytes
trim_end c [] = if is_cut c then [] else c ∷ []
trim_end c (d ∷ s) = c ∷ d ∷ s

trim_right : Bytes → Bytes
unfolding is_cut trim_end
trim_right [] = []
trim_right (c ∷ s) = trim_end c (trim_right s)

unfoldable pub trim : Bytes → Bytes
unfolding trim_left trim_right
trim s = trim_right (trim_left s)

-- What a chunk is: one that is forwarded unread, the statement of a COM_QUERY packet, or an index or a
-- slice out of range.
pub data Text : Type 0 where
  not_query : Text
  query : Bytes → Text
  out_of_range : Text

-- `strings.Trim(string(buffer[5:n]), …)`
slice_text : Bytes → Text
unfolding trim
slice_text buffer = if ltb (length buffer) 5 then out_of_range else query (trim (drop 5 buffer))

-- Behind `buffer[4]`.
command_text : Bytes → Option ℕ → Text
unfolding slice_text
command_text buffer none = out_of_range
command_text buffer (some command) = if command == 3 then slice_text buffer else not_query

unfoldable pub query_text : Bytes → Text
unfolding command_text
query_text buffer =
    if leb (length buffer) 5 then not_query else command_text buffer (get_elem? buffer 4)

-- The two results of `delegateSelect` with the session after it; `none` is a call that does not return:
-- it panics, or waits in `writeDataRow` for ever.
abbrev pub Delegated : Type 0
Delegated = Option (Session × Bool × Option PoolError)

-- `writeDataRow`, where it returns, and the deferred `db.Put(conn)`.
served : Session → ℕ → ConnectionPool → Bytes → ℕ → Bool → Delegated
served s i q sql c false = none
served s i q sql c true = some (
  record s { pools = set s.pools i (put q c).0; log = s.log ++ (to_replica i c sql ∷ []) },
  true,
  none,
)

-- Behind `db.Get()`.
answer : Session → Round → ℕ → Bytes → ConnectionPool × Got → Delegated
unfolding served
answer s r i sql (q, err e) = some (record s { pools = set s.pools i q }, true, some e)
answer s r i sql (q, ok c) = served s i q sql c (r.serves c sql)

run_on : Session → Round → Bytes → ℕ → Option ConnectionPool → Delegated
unfolding answer
run_on s r sql i none = none
run_on s r sql i (some p) = answer s r i sql (get p r.dial)

delegate_read : Session → Round → Bytes → Option ℕ → Delegated
unfolding run_on
delegate_read s r sql none = none
delegate_read s r sql (some i) = run_on s r sql i (get_elem? s.pools i)

delegate_text : Session → Round → Text → Delegated
unfolding delegate_read
delegate_text s r out_of_range = none
delegate_text s r not_query = some (s, false, none)
delegate_text s r (query sql) =
    if s.proxy.in_trans || not (match_select sql)
    then some (
      record s { proxy = record (s.proxy) { in_trans = track_transaction s.proxy.in_trans sql } },
      false,
      none,
    )
    else delegate_read s r sql (choose_by_weight r.intn s.proxy.total_weight s.proxy.dbs)

unfoldable pub delegate_select : Session → Round → Bytes → Delegated
unfolding delegate_text
delegate_select s r buffer = delegate_text s r (query_text buffer)

-- The rest of a round of `handleInbound`; `panicked` stands for a call that does not return. The branch for an error without the flag closes the
-- connection to the main database and returns.
after_delegate : Bytes → Round → Delegated → Session → Session
after_delegate buffer r none s = record s { status = panicked }
after_delegate buffer r (some (t, true, error)) s = t
after_delegate buffer r (some (t, false, some error)) s = record t { status = returned }
after_delegate buffer r (some (t, false, none)) s =
    if r.write_ok
    then record t { log = t.log ++ (to_main buffer ∷ []) }
    else record t { status = returned }

inbound_read : Session → Round → Read → Session
unfolding after_delegate
inbound_read s r (chunk buffer) = after_delegate buffer r (delegate_select s r buffer) s
inbound_read s r eof = record s { status = returned }
inbound_read s r failed = record s { status = returned }

inbound_round : Status → Session → Round → Session
unfolding inbound_read
inbound_round reading s r = inbound_read s r r.read
inbound_round returned s r = s
inbound_round panicked s r = s

-- `handleInbound` over the rounds that the environment grants it.
unfoldable pub handle_inbound : Session → List Round → Session
unfolding inbound_round
handle_inbound s [] = s
handle_inbound s (r ∷ rs) = handle_inbound (inbound_round s.status s r) rs
