-- ===== src/Mysql/Auth/Runs.antt =====
-- Concrete authentications, and the theorem on them at a concrete input.
use Prim.Native.Nat.{bit_xor}
use dbrwproxy.Prelude.{
  ℕ, ◌+◌, ◌%◌, ◌≡◌, refl, sym, ◌∙◌, Bytes, codes, [], ◌∷◌, ◌++◌, true, false, Option, none, some,
  length, get_elem?, bytes_eq, arith, index_byte,
}
use dbrwproxy.Mysql.Errors.{Result, ok, err, panic, cleartext_password, ◌>>=◌}
use dbrwproxy.Mysql.Integers.{from_bytes}
use dbrwproxy.Mysql.LengthEncoded.{read_length_encoded_integer}
use dbrwproxy.Mysql.Fields.{or_panic}
use dbrwproxy.Mysql.OldPassword.{scramble_old_password}
use dbrwproxy.Mysql.Packets.{read_packet}
use dbrwproxy.Mysql.Packets.Writing.{whole, write_packet}
use dbrwproxy.Mysql.Connection.{MysqlConn, Outcome, done, stuck}
use dbrwproxy.Mysql.Dsn.Params.{DsnConfig, new_config}
use dbrwproxy.Mysql.Query.{Sending}
use dbrwproxy.Mysql.Auth.Replies.{
  Crypto, auth, mask_plain, encrypt_password, scramble_password, scramble_sha256_password,
}
use dbrwproxy.Mysql.Auth.{handle_auth_result}
use dbrwproxy.Mysql.Auth.Secrecy.{Alike, handle_auth_result-conceals}

-- Hashes that forget everything, and a cipher with one text.
abbrev dull : Crypto
dull = record {
  sha1 = λ bytes. [];
  sha256 = λ bytes. [];
  encrypt_oaep = λ plain key. some (7 ∷ []);
  decode_pem = λ text. some text;
  parse_key = λ block. ok block;
}

abbrev all_sent : ℕ → Sending
all_sent k = record { net = λ i. whole; alive = true; busy = false }

abbrev account : DsnConfig
account = record new_config { user = codes "root"; passwd = codes "a b"; network = codes "tcp" }

abbrev answered : Bytes → MysqlConn
answered bytes = record {
  stream = record { incoming = bytes; sequence = 2; canceled = none };
  closed = false;
  status = 2;
  affected_rows = [];
  insert_ids = [];
  settings = record { reject_read_only = false; columns_with_alias = false; parse_time = false };
  rows = record { has_conn = false; columns = []; done = false };
  max_allowed_packet = 1000;
  reset = false;
  to_server = [];
  to_client = [];
}

-- What comes behind masking where the masked bytes do not matter.
module _ (out : Result Bytes) where
  put_back :
      (r : Result Bytes) (f : Bytes → Bytes)
      → ((r >>= λ m. ok (f m)) >>= λ m. out) ≡ (r >>= λ m. out)
  put_back panic f = refl
  put_back (err e) f = refl
  put_back (ok m) f = refl

  mask_step :
      (o : Result ℕ) (r r' : Result Bytes) (b b' : ℕ)
      → (r >>= λ m. out) ≡ (r' >>= λ m. out)
      → ((o >>= λ s. r >>= λ rest. ok (bit_xor b s ∷ rest)) >>= λ m. out)
        ≡ ((o >>= λ s. r' >>= λ rest. ok (bit_xor b' s ∷ rest)) >>= λ m. out)
  mask_step panic r r' b b' h = refl
  mask_step (err e) r r' b b' h = refl
  mask_step (ok s) r r' b b' h =
      put_back r (λ rest. bit_xor b s ∷ rest) ∙ h ∙ sym (put_back r' (λ rest. bit_xor b' s ∷ rest))

  masked_same :
      (seed : Bytes) (i : ℕ) (xs ys : Bytes)
      → length xs ≡ length ys
      → (mask_plain seed i xs >>= λ m. out) ≡ (mask_plain seed i ys >>= λ m. out)
  unfolding mask_plain
  masked_same seed i [] [] h = refl
  masked_same seed i [] (y ∷ ys) h = absurd (omega arith)
  masked_same seed i (x ∷ xs) [] h = absurd (omega arith)
  masked_same seed i (x ∷ xs) (y ∷ ys) h =
      mask_step (or_panic (get_elem? seed (i % length seed))) (mask_plain seed (i + 1) xs)
        (mask_plain seed (i + 1) ys) x y (masked_same seed (i + 1) xs ys (omega arith))

-- The old hash leaves blanks out.
blank-Alike : Alike dull (codes "a b") (codes "ab ")
unfolding bytes_eq scramble_old_password scramble_password scramble_sha256_password encrypt_password
blank-Alike = record {
  given = refl;
  given' = refl;
  old = λ cipher. refl;
  native = λ cipher. refl;
  sha2 = λ cipher. refl;
  encrypted = λ seed key.
      masked_same (ok (7 ∷ [])) seed 0 (codes "a b" ++ (0 ∷ [])) (codes "ab " ++ (0 ∷ [])) refl;
}

-- The server asks for a full authentication and sends its key.
abbrev asking : MysqlConn
asking =
    answered (
      2 ∷ 0 ∷ 0 ∷ 2 ∷ 1 ∷ 4 ∷ 2 ∷ 0 ∷ 0 ∷ 4 ∷ 1 ∷ 9 ∷ 7 ∷ 0 ∷ 0 ∷ 6 ∷ 0 ∷ 0 ∷ 0 ∷ 2 ∷ 0 ∷ 0 ∷ 0
      ∷ [])

handle_auth_result-conceals_example :
    (auth dull account (1 ∷ 2 ∷ []) (codes "caching_sha2_password")
      ≡ auth dull
          (record account { passwd = codes "ab " })
          (1 ∷ 2 ∷ [])
          (codes "caching_sha2_password"))
    × (handle_auth_result all_sent 4096 dull account
          (1 ∷ 2 ∷ [])
          (codes "caching_sha2_password")
          asking
        ≡ handle_auth_result all_sent 4096 dull
            (record account { passwd = codes "ab " })
            (1 ∷ 2 ∷ [])
            (codes "caching_sha2_password")
            asking)
handle_auth_result-conceals_example =
    handle_auth_result-conceals all_sent 4096 dull account (codes "ab ") blank-Alike refl
      (λ e. absurd (cc)) refl (1 ∷ 2 ∷ []) (codes "caching_sha2_password") asking

abbrev sent_of : Outcome (Unit {0}) → Option (Bytes × Result (Unit {0}))
sent_of (done c r) = some (c.to_server, r)
sent_of stuck = none

-- A request of the key and then the encrypted password.
full_runs :
    sent_of (
      handle_auth_result all_sent 4096 dull account
        (1 ∷ 2 ∷ [])
        (codes "caching_sha2_password")
        asking)
    ≡ some (1 ∷ 0 ∷ 0 ∷ 3 ∷ 2 ∷ 1 ∷ 0 ∷ 0 ∷ 5 ∷ 7 ∷ [], ok tt)
unfolding handle_auth_result read_packet write_packet read_length_encoded_integer from_bytes
full_runs = refl

-- A server that wants the password as it is.
clear_runs :
    sent_of (
      handle_auth_result all_sent 4096 dull account
        (1 ∷ 2 ∷ [])
        (codes "mysql_native_password")
        (answered (23 ∷ 0 ∷ 0 ∷ 2 ∷ 254 ∷ (codes "mysql_clear_password" ++ (0 ∷ 5 ∷ [])))))
    ≡ some ([], err cleartext_password)
unfolding handle_auth_result read_packet index_byte
clear_runs = refl
