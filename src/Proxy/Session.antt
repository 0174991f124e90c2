-- ===== src/Proxy/Session.antt =====
-- What the sessions of proxy/mysql.go and proxy/postgres.go share: the transaction flag, and the log
-- of what a session did.
use dbrwproxy.Prelude.{ℕ, Bytes, Bool, true, false, if◌then◌else◌}
use dbrwproxy.Proxy.Statements.{match_tran_begin, match_tran_end}

-- `p.inTrans` after a statement that goes to the main database.
unfoldable pub track_transaction : Bool → Bytes → Bool
track_transaction in_trans sql =
    let begun = if match_tran_begin sql then true else in_trans in
    if begun then (if match_tran_end sql then false else begun) else begun

-- One read of `localConn`: a chunk of at most a buffer's length, or an error.
pub data Read : Type 0 where
  chunk : Bytes → Read
  eof : Read
  failed : Read

-- A chunk written to the main database, or a statement run on a replica: which one, by its place
-- among the pools, and on which connection.
pub data Event : Type 0 where
  to_main : Bytes → Event
  to_replica : ℕ → ℕ → Bytes → Event

-- How the loop of `handleInbound` stands: it waits for the next chunk, has returned, or panicked.
pub data Status : Type 0 where
  reading returned panicked : Status
