-- ===== src/Mysql/Connector/Failing.antt =====
-- A connection that `Connect` of mysql/connector.go gives up.
use dbrwproxy.Prelude.{
  ℕ, ◌≡◌, refl, Bytes, Bool, true, false, Option, Bool-cases, inl, inr, if◌then◌else◌,
}
use dbrwproxy.Mysql.Errors.{MysqlError, ok, err, panic}
use dbrwproxy.Mysql.Values.{Conversion}
use dbrwproxy.Mysql.Connection.{MysqlConn, Outcome, done, stuck, M, cleanup}
use dbrwproxy.Mysql.Query.{Sending}
use dbrwproxy.Mysql.Query.Commands.{close_conn, closed_after, write_command_packet}
use dbrwproxy.Mysql.Auth.Replies.{Crypto}
use dbrwproxy.Mysql.Connector.{Connector, or_cleanup, with_error, or_close, settle, connect}

-- An outcome that has closed the connection wherever it is an error.
abbrev pub ClosesOnError : Outcome (Unit {0}) → Type 0
ClosesOnError (done c (err e)) = c.closed ≡ true
ClosesOnError (done c (ok a)) = Unit {0}
ClosesOnError (done c panic) = Unit {0}
ClosesOnError stuck = Unit {0}

record Tidy (o : Outcome (Unit {0})) : Type 0 where
  closes : ClosesOnError o

tidy : {o : Outcome (Unit {0})} → ClosesOnError o → Tidy o
tidy h = record { closes = h }

cleanup-closed : (c : MysqlConn) → (cleanup c).closed ≡ true
unfolding cleanup
cleanup-closed c = elim (Bool-cases c.closed) [ inl e ↦ rw e refl | inr e ↦ rw e refl ]

closed_after-ClosesOnError :
    (e : MysqlError) (o : Outcome (Unit {0})) → ClosesOnError (with_error e (closed_after o))
unfolding closed_after
closed_after-ClosesOnError e (done c r) = cleanup-closed c
closed_after-ClosesOnError e stuck = tt

if-ClosesOnError :
    (e : MysqlError) (b : Bool) (x y : Outcome (Unit {0}))
    → ClosesOnError (with_error e x)
    → ClosesOnError (with_error e y)
    → ClosesOnError (with_error e (if b then x else y))
if-ClosesOnError e true x y h k = h
if-ClosesOnError e false x y h k = k

close_conn-ClosesOnError :
    (env : Sending) (e : MysqlError) (c : MysqlConn)
    → ClosesOnError (with_error e (close_conn env c))
unfolding close_conn
close_conn-ClosesOnError env e c =
    if-ClosesOnError e c.closed (done (cleanup c) (ok tt))
      (closed_after (write_command_packet env 1 c)) (cleanup-closed c)
      (closed_after-ClosesOnError e (write_command_packet env 1 c))

or_cleanup-Tidy :
    {A : Type 0} (o : Outcome A) (next : A → M (Unit {0}))
    → ((a : A) (c : MysqlConn) → Tidy (next a c))
    → Tidy (or_cleanup o next)
unfolding or_cleanup
or_cleanup-Tidy (done c (ok a)) next h = h a c
or_cleanup-Tidy (done c (err e)) next h = tidy (cleanup-closed c)
or_cleanup-Tidy (done c panic) next h = tidy tt
or_cleanup-Tidy stuck next h = tidy tt

or_close-Tidy :
    (env : Sending) (o : Outcome (Unit {0})) (next : M (Unit {0}))
    → ((c : MysqlConn) → Tidy (next c))
    → Tidy (or_close env o next)
unfolding or_close
or_close-Tidy env (done c (ok a)) next h = h c
or_close-Tidy env (done c (err e)) next h = tidy (close_conn-ClosesOnError env e c)
or_close-Tidy env (done c panic) next h = tidy tt
or_close-Tidy env stuck next h = tidy tt

connect-Tidy :
    {X : Type 0} (convert : Conversion → Bytes → Option X) (in_file : Bytes → M (Unit {0}))
    (fuel : ℕ) (env : ℕ → Sending) (room : ℕ) (crypto : Crypto) (tls_handshake : Option MysqlError)
    (connector : Connector) (c : MysqlConn)
    → Tidy (connect convert in_file fuel env room crypto tls_handshake connector c)
unfolding connect settle
connect-Tidy convert in_file fuel env room crypto tls_handshake connector c =
    or_cleanup-Tidy _ _ (λ greeting c1. or_cleanup-Tidy _ _ (λ chosen c2.
      or_cleanup-Tidy _ _ (λ _ c3.
        or_cleanup-Tidy _ _
          (λ _ c4. or_close-Tidy (env 4) _ _ (λ d. or_close-Tidy (env 4) _ _ (λ e. tidy tt))))))

-- Wherever the server, the writes, the handshake of TLS and the cryptography lead, `Connect` behind
-- the dialling leaves no connection open that it does not return: where it ends with an error, also
-- one of the system variable or of the parameters, the connection is closed.
pub connect-ClosesOnError :
    {X : Type 0} (convert : Conversion → Bytes → Option X) (in_file : Bytes → M (Unit {0}))
    (fuel : ℕ) (env : ℕ → Sending) (room : ℕ) (crypto : Crypto) (tls_handshake : Option MysqlError)
    (connector : Connector) (c : MysqlConn)
    → ClosesOnError (connect convert in_file fuel env room crypto tls_handshake connector c)
connect-ClosesOnError convert in_file fuel env room crypto tls_handshake connector c =
    (connect-Tidy convert in_file fuel env room crypto tls_handshake connector c).closes
