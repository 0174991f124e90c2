-- ===== src/Mysql/Errors.antt =====
-- mysql/errors.go: the errors of the package, and the result of a Go function that may also panic.
use dbrwproxy.Prelude.{ℕ, Bytes, ◌≡◌, refl}

pub data MysqlError : Type 0 where
  invalid_conn malform_pkt no_tls cleartext_password native_password old_password : MysqlError
  unknown_plugin old_protocol pkt_sync pkt_sync_mul pkt_too_large busy_buffer : MysqlError
  -- errBadConnNoWrite, and the errors of other packages: driver.ErrBadConn, driver.ErrSkip, io.EOF
  -- and io.ErrUnexpectedEOF.
  bad_conn_no_write bad_conn skip eof unexpected_eof : MysqlError
  -- An error that the network or a context reports, and one that is made on the spot.
  network canceled : MysqlError
  message : Bytes → MysqlError
  -- MySQLError: number, SQL state and message of an error packet.
  server : ℕ → Bytes → Bytes → MysqlError

-- What a Go function comes to: it panics, returns an error, or returns a value and no error.
pub data Result {ℓ} (A : Type ℓ) : Type ℓ where
  panic : Result A
  err : MysqlError → Result A
  ok : A → Result A

infixl 5 ◌>>=◌
abbrev pub ◌>>=◌ {κ ℓ} : {B : Type κ} {A : Type ℓ} → Result B → (B → Result A) → Result A
panic >>= next = panic
err e >>= next = err e
ok b >>= next = next b

-- The intermediate value of a chain that succeeds.
pub >>=-middle {κ ℓ} :
    {B : Type κ} {A : Type ℓ} {last : A} (first : Result B) (next : B → Result A)
    → (first >>= next) ≡ ok last
    → (middle : B) × (first ≡ ok middle) × (next middle ≡ ok last)
>>=-middle panic next done = cc
>>=-middle (err e) next done = cc
>>=-middle (ok b) next done = (b, refl, done)

pub then_same :
    {A : Type 0} {B : Type 0} (r : Result A) (f g : A → Result B)
    → ((a : A) → f a ≡ g a)
    → (r >>= f) ≡ (r >>= g)
then_same panic f g h = refl
then_same (err e) f g h = refl
then_same (ok a) f g h = h a
