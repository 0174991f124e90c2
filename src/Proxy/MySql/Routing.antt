-- ===== src/Proxy/MySql/Routing.antt =====
-- Where `delegateSelect` of proxy/mysql.go sends a chunk, against a description by kinds of statement.
use dbrwproxy.Prelude.{
  ◌⊎◌, true, ℕ, ◌≡◌, refl, subst, Bytes, Bool, false, not, ◌||◌, Option, none, some, inl, inr,
  arith, get_elem?, ◌≢◌, [], ◌∷◌, Bool-cases, Option-cases,
}
use dbrwproxy.Pool.{ConnectionPool, Got, PoolError, ok, err, get}
use dbrwproxy.Proxy.Statements.{match_select}
use dbrwproxy.Proxy.Kinds.{
  Kind, unread, reads, kind_of, next_trans, goes_to_main, track-next_trans, main_kind, replica_kind,
}
use dbrwproxy.Proxy.MySql.{
  Session, Round, Delegated, query_text, delegate_select, delegate_text, delegate_read, run_on,
  answer, served, Text, not_query, query, out_of_range,
}

abbrev pub text_kind : Text → Kind
text_kind not_query = unread
text_kind out_of_range = unread
text_kind (query sql) = kind_of sql

unfoldable pub chunk_kind : Bytes → Kind
chunk_kind buffer = text_kind (query_text buffer)

-- What `delegateSelect` has done when it returns.
pub record Follows (s : Session) (k : Kind) (t : Session) (flag : Bool) (e : Option PoolError)
    : Type 0 where
  pub flagged : flag ≡ not (goes_to_main s.proxy.in_trans k)
  pub flag_after : t.proxy.in_trans ≡ next_trans s.proxy.in_trans k
  pub no_error : (flag ≡ true) ⊎ (e ≡ none)
  pub untouched : (flag ≡ true) ⊎ ((t.pools ≡ s.pools) × (t.log ≡ s.log))
  pub going_on : t.status ≡ s.status

abbrev FollowsAny : Session → Kind → Delegated → Type 0
FollowsAny s k none = Unit
FollowsAny s k (some (t, flag, e)) = Follows s k t flag e

served-Follows :
    (s : Session) (i : ℕ) (q : ConnectionPool) (sql : Bytes) (c : ℕ) (returns : Bool)
    → s.proxy.in_trans ≡ false
    → FollowsAny s reads (served s i q sql c returns)
unfolding served
served-Follows s i q sql c false h = tt
served-Follows s i q sql c true h = ground arith

answer-Follows :
    (s : Session) (r : Round) (i : ℕ) (sql : Bytes) (g : ConnectionPool × Got)
    → s.proxy.in_trans ≡ false
    → FollowsAny s reads (answer s r i sql g)
unfolding answer
answer-Follows s r i sql (q, err e) h = ground arith
answer-Follows s r i sql (q, ok c) h = served-Follows s i q sql c (r.serves c sql) h

read-Follows :
    (s : Session) (r : Round) (sql : Bytes) (db : Option ℕ)
    → s.proxy.in_trans ≡ false
    → FollowsAny s reads (delegate_read s r sql db)
unfolding delegate_read run_on
read-Follows s r sql none h = tt
read-Follows s r sql (some i) h = elim (Option-cases (get_elem? s.pools i)) [
  | inl e ↦ rw e tt
  | inr (p, e) ↦ rw e (answer-Follows s r i sql (get p r.dial) h)
]

text-Follows :
    (s : Session) (r : Round) (text : Text) → FollowsAny s (text_kind text) (delegate_text s r text)
unfolding delegate_text
text-Follows s r out_of_range = tt
text-Follows s r not_query = ground arith
text-Follows s r (query sql) = elim (Bool-cases (s.proxy.in_trans || not (match_select sql))) [
  | inl main ↦ rw main (record {
    flagged = rw (main_kind s.proxy.in_trans sql main);
    flag_after = track-next_trans s.proxy.in_trans sql;
    no_error = inr refl;
    untouched = inr (refl, refl);
    going_on = refl;
  })
  | inr replica ↦
      let (is_read, outside) = replica_kind s.proxy.in_trans sql replica in
      rw (replica, is_read) (read-Follows s r sql _ outside)
]

-- Behind the guard on its length `delegateSelect` reads no byte and takes no slice out of range.
pub query_text-in_range : (buffer : Bytes) → query_text buffer ≢ out_of_range
unfolding query_text
query_text-in_range [] h = cc
query_text-in_range (a ∷ []) h = cc
query_text-in_range (a ∷ b ∷ []) h = cc
query_text-in_range (a ∷ b ∷ c ∷ []) h = cc
query_text-in_range (a ∷ b ∷ c ∷ d ∷ []) h = cc
query_text-in_range (a ∷ b ∷ c ∷ d ∷ e ∷ []) h = cc
query_text-in_range (a ∷ b ∷ c ∷ d ∷ e ∷ f ∷ bs) h = ground arith

-- Where `delegateSelect` returns, it returns `true`, for a chunk that is not to be forwarded,
-- exactly if the chunk is a SELECT and the session is outside a transaction; the flag `inTrans`
-- follows the statements that begin and end one. With `false` comes no error, and the pools and the
-- log are as they were.
pub delegate_select-Follows :
    (s t : Session) (r : Round) (buffer : Bytes) (flag : Bool) (e : Option PoolError)
    → delegate_select s r buffer ≡ some (t, flag, e)
    → Follows s (chunk_kind buffer) t flag e
unfolding delegate_select chunk_kind
delegate_select-Follows s t r buffer flag e h =
    subst (FollowsAny s (text_kind (query_text buffer))) h (text-Follows s r (query_text buffer))
