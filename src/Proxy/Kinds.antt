-- ===== src/Proxy/Kinds.antt =====
-- Statements by kind: where a read/write splitting proxy is to send each, and what it does to the
-- transaction flag. Both proxies are held against this description.
use dbrwproxy.Prelude.{◌≡◌, Bytes, Bool, true, false, not, ◌||◌, arith, if◌then◌else◌}
use dbrwproxy.Proxy.Statements.{
  match_select, match_tran_begin, match_tran_end, select_only, begin_only,
}
use dbrwproxy.Proxy.Session.{track_transaction}

-- What a chunk is to the session.
pub data Kind : Type 0 where
  unread reads begins ends other : Kind

-- The kind of a statement, and of a chunk.
unfoldable pub kind_of : Bytes → Kind
kind_of sql =
    if match_select sql
    then reads
    else if match_tran_begin sql
    then begins
    else if match_tran_end sql
    then ends
    else other

-- The session's transaction flag after a chunk.
abbrev pub next_trans : Bool → Kind → Bool
next_trans in_trans begins = true
next_trans in_trans ends = false
next_trans in_trans _ = in_trans

-- Reads outside a transaction go to a replica, and all else to the main database.
abbrev pub goes_to_main : Bool → Kind → Bool
goes_to_main in_trans reads = in_trans
goes_to_main in_trans _ = true

pub track-next_trans :
    (in_trans : Bool) (sql : Bytes)
    → track_transaction in_trans sql ≡ next_trans in_trans (kind_of sql)
unfolding track_transaction kind_of
track-next_trans in_trans sql = ground (arith, select_only sql, begin_only sql)

pub main_kind :
    (in_trans : Bool) (sql : Bytes)
    → (in_trans || not (match_select sql)) ≡ true
    → goes_to_main in_trans (kind_of sql) ≡ true
unfolding kind_of
main_kind in_trans sql h = ground arith

pub replica_kind :
    (in_trans : Bool) (sql : Bytes)
    → (in_trans || not (match_select sql)) ≡ false
    → (kind_of sql ≡ reads) × (in_trans ≡ false)
unfolding kind_of
replica_kind in_trans sql h = ground arith

-- The same the other way round.
pub main_of_kind :
    (in_trans : Bool) (sql : Bytes)
    → goes_to_main in_trans (kind_of sql) ≡ true
    → (in_trans || not (match_select sql)) ≡ true
unfolding kind_of
main_of_kind in_trans sql h = ground arith

pub read_of_kind : (sql : Bytes) → kind_of sql ≡ reads → match_select sql ≡ true
unfolding kind_of
read_of_kind sql h = ground arith
