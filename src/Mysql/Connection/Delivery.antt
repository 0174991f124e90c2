-- ===== src/Mysql/Connection/Delivery.antt =====
-- What a computation on a connection of the package mysql has written to the client, against what it
-- has read from the server.
use dbrwproxy.Prelude.{
  ◌≡◌, refl, sym, ap, ◌∙◌, Bytes, ◌++◌, append_assoc, Bool, true, false, ◌⊎◌, inl, inr, arith,
  if◌then◌else◌,
}
use dbrwproxy.Mysql.Errors.{MysqlError, Result, ok, err, panic}
use dbrwproxy.Mysql.Packets.{PacketRead, packet, refused, dropped}
use dbrwproxy.Mysql.Packets.Reading.{Delivered, read_packet-relayed}
use dbrwproxy.Mysql.Connection.{
  MysqlConn, Outcome, done, stuck, M, and_then, ◌>>=◌, lift, modify, shut_down, cleanup, error,
  taken, relaying,
}

-- The client's bytes and the server's that are still to come are, in this order, the same as before.
abbrev pub Level : MysqlConn → MysqlConn → Type 0
Level c d = c.to_client ++ c.stream.incoming ≡ d.to_client ++ d.stream.incoming

-- The client was sent a front of what the server had sent.
abbrev pub Front : MysqlConn → MysqlConn → Type 0
Front c d = (rest : Bytes) × (c.to_client ++ c.stream.incoming ≡ d.to_client ++ rest)

-- On success, and on an error that leaves the connection open, the client has exactly what was read.
abbrev pub Delivers {ℓ} : {A : Type ℓ} → MysqlConn → Outcome A → Type 0
Delivers c (done d (ok a)) = Level c d × (d.closed ≡ c.closed)
Delivers c (done d (err e)) = Front c d × (Level c d ⊎ (d.closed ≡ true))
Delivers c (done d panic) = Front c d
Delivers c stuck = Unit {0}

pub record Relays {ℓ} {A : Type ℓ} (m : M A) : Type 0 where
  pub delivers : (c : MysqlConn) → Delivers c (m c)

-- What follows a successful computation starts from the same bytes.
pub Delivers-trans {ℓ} :
    {A : Type ℓ} (c d : MysqlConn) (o : Outcome A)
    → Level c d
    → d.closed ≡ c.closed
    → Delivers d o
    → Delivers c o
Delivers-trans c d (done e (ok a)) h k (h', k') = (h ∙ h', k' ∙ k)
Delivers-trans c d (done e (err x)) h k ((rest, f), inl l) = ((rest, h ∙ f), inl (h ∙ l))
Delivers-trans c d (done e (err x)) h k ((rest, f), inr z) = ((rest, h ∙ f), inr z)
Delivers-trans c d (done e panic) h k (rest, f) = (rest, h ∙ f)
Delivers-trans c d stuck h k _ = tt

Delivers-and_then {ℓ κ} :
    {A : Type ℓ} {B : Type κ} (c : MysqlConn) (o : Outcome A) (f : A → M B)
    → Delivers c o
    → ((a : A) → Relays (f a))
    → Delivers c (and_then o f)
Delivers-and_then c (done d (ok a)) f (h, k) fs = Delivers-trans c d (f a d) h k ((fs a).delivers d)
Delivers-and_then c (done d (err e)) f h fs = h
Delivers-and_then c (done d panic) f h fs = h
Delivers-and_then c stuck f h fs = tt

-- Computations that relay can follow one another.
pub >>=-Relays {ℓ κ} :
    {A : Type ℓ} {B : Type κ} {m : M A} {f : A → M B}
    → Relays m
    → ((a : A) → Relays (f a))
    → Relays (m >>= f)
>>=-Relays {m = m} {f = f} h fs = record {
  delivers = λ c. Delivers-and_then c (m c) f (h.delivers c) fs;
}

Delivers-lift {ℓ} : {A : Type ℓ} (c : MysqlConn) (r : Result A) → Delivers c (done c r)
Delivers-lift c (ok a) = (refl, refl)
Delivers-lift c (err e) = ((c.stream.incoming, refl), inl refl)
Delivers-lift c panic = (c.stream.incoming, refl)

pub lift-Relays {ℓ} : {A : Type ℓ} (r : Result A) → Relays (lift r)
lift-Relays r = record { delivers = λ c. Delivers-lift c r }

pub modify-Relays :
    (f : MysqlConn → MysqlConn)
    → ((c : MysqlConn) → Level c (f c) × ((f c).closed ≡ c.closed))
    → Relays (modify f)
modify-Relays f keeps = record { delivers = keeps }

-- An error under which the connection is closed, or not.
pub cleanup_keeps :
    (c : MysqlConn)
    → ((cleanup c).closed ≡ true)
      × ((cleanup c).to_client ≡ c.to_client)
      × ((cleanup c).stream ≡ c.stream)
      × ((cleanup c).rows ≡ c.rows)
unfolding cleanup
cleanup_keeps c = ground arith

pub error-Relays : Relays error
unfolding error
error-Relays = record { delivers = λ c. Delivers-lift c _ }

moved :
    (c : MysqlConn) (written rest : Bytes)
    → c.stream.incoming ≡ written ++ rest
    → c.to_client ++ c.stream.incoming ≡ (c.to_client ++ written) ++ rest
moved c written rest h = ap (λ b. c.to_client ++ b) h ∙ sym (append_assoc c.to_client written rest)

taken-Delivers :
    (c : MysqlConn) (written : Bytes) (p : PacketRead)
    → Delivered c.stream.incoming written p
    → Delivers c (taken (record c { to_client = c.to_client ++ written }) p)
unfolding taken
taken-Delivers c written (packet s bytes) h = (moved c written s.incoming h, refl)
taken-Delivers c written (refused s e) h =
    let level = moved c written s.incoming h in ((s.incoming, level), inl level)
taken-Delivers c written (dropped e) (rest, h) =
    let d : MysqlConn = record c { to_client = c.to_client ++ written } in
    let (shut, same, _, _) = cleanup_keeps d in
    ((rest, moved c written rest h ∙ ap (λ b. b ++ rest) (sym same)), inr shut)

pub relaying-Relays : Relays relaying
unfolding relaying
relaying-Relays = record {
  delivers = λ c.
      let (p, written, _, e, h) = read_packet-relayed c.stream in
      rw e (taken-Delivers c written p h);
}

pub shut_down-Relays {ℓ} : {A : Type ℓ} (e : MysqlError) → Relays (shut_down {A = A} e)
shut_down-Relays e = record {
  delivers = λ c.
      let (shut, same, _, _) = cleanup_keeps c in
      ((c.stream.incoming, ap (λ b. b ++ c.stream.incoming) (sym same)), inr shut);
}

pub stuck-Relays {ℓ} : {A : Type ℓ} → Relays {A = A} (λ c. stuck)
stuck-Relays = record { delivers = λ c. tt }

pub if-Relays {ℓ} :
    {A : Type ℓ} {m k : M A} (t : Bool) → Relays m → Relays k → Relays (if t then m else k)
if-Relays true h k = h
if-Relays false h k = k

-- A branch on the state.
pub if-Delivers {ℓ} :
    {A : Type ℓ} (t : Bool) (c : MysqlConn) (o p : Outcome A)
    → Delivers c o
    → Delivers c p
    → Delivers c (if t then o else p)
if-Delivers true c o p h k = h
if-Delivers false c o p h k = k
