-- ===== src/Mysql/Auth/Secrecy.antt =====
-- What the authentication of mysql/auth.go lets an observer of the connection learn of the password.
use dbrwproxy.Prelude.{
  ℕ, ◌+◌, ◌≡◌, ◌≢◌, refl, ap, ◌∙◌, Bytes, codes, [], ◌∷◌, ◌++◌, Bool, true, false, Option, none,
  some, ◌==◌, if◌then◌else◌, length, take, drop, bytes_eq, bytes_eq→eq, not, Bool-cases, inl, inr,
}
use dbrwproxy.Mysql.Errors
use dbrwproxy.Mysql.Errors.{Result, ok, err, panic, old_password, malform_pkt}
use dbrwproxy.Mysql.OldPassword.{scramble_old_password}
use dbrwproxy.Mysql.Dsn.Params.{DsnConfig}
use dbrwproxy.Mysql.Connection.{MysqlConn, Outcome, done, stuck, M, and_then}
use dbrwproxy.Mysql.Query.{Sending}
use dbrwproxy.Mysql.Query.Commands.{read_result_ok}
use dbrwproxy.Mysql.Auth.Replies.{
  Crypto, auth, encrypt_password, scramble_password, scramble_sha256_password, old_reply,
  sha256_reply, cut_to, native_scrambled, old_scrambled, key_reply, ended,
}
use dbrwproxy.Mysql.Auth.{
  encrypted_answer, behind_reply, switch_answered, first_answered, read_auth_result,
  write_auth_switch_packet, send_encrypted_password, key_of, request_key, full_authentication,
  caching_sha2_result, sha256_result, plugin_result, switch_plugin, handle_auth_result,
}

-- Two passwords that every scramble and every encryption takes to the same bytes, and that are both
-- not empty.
pub record Alike (crypto : Crypto) (p p' : Bytes) : Type 0 where
  pub given : bytes_eq p [] ≡ false
  pub given' : bytes_eq p' [] ≡ false
  pub old : (cipher : Bytes) → scramble_old_password cipher p ≡ scramble_old_password cipher p'
  pub native :
      (cipher : Bytes) → scramble_password crypto cipher p ≡ scramble_password crypto cipher p'
  pub sha2 :
      (cipher : Bytes)
      → scramble_sha256_password crypto cipher p ≡ scramble_sha256_password crypto cipher p'
  pub encrypted :
      (seed key : Bytes) → encrypt_password crypto p seed key ≡ encrypt_password crypto p' seed key

then_same :
    {A : Type 0} {B : Type 0} (o : Outcome A) (f g : A → M B)
    → ((a : A) (c : MysqlConn) → f a c ≡ g a c)
    → and_then o f ≡ and_then o g
then_same (done c (ok a)) f g h = h a c
then_same (done c (err e)) f g h = refl
then_same (done c panic) f g h = refl
then_same stuck f g h = refl

if_same :
    (b : Bool) (f g f' g' : M (Unit {0})) (c : MysqlConn)
    → f c ≡ f' c
    → g c ≡ g' c
    → (if b then f else g) c ≡ (if b then f' else g') c
if_same true f g f' g' c h k = h
if_same false f g f' g' c h k = k

module _ (crypto : Crypto) (cfg : DsnConfig) (p' : Bytes) (alike : Alike crypto cfg.passwd p')
    (plain_text : cfg.tls ≡ none) where
  abbrev cfg' : DsnConfig
  cfg' = record cfg { passwd = p' }

  old_same : (bytes : Bytes) → old_reply cfg bytes ≡ old_reply cfg' bytes
  unfolding old_reply old_scrambled
  old_same bytes =
      rw (alike.given, alike.given')
        (ap (λ r. if not cfg.allow_old_passwords then err old_password else r)
          (Errors.then_same (cut_to 8 bytes) _ _ (λ cipher. ap ended (alike.old cipher))))

  native_same :
      (bytes : Bytes) → native_scrambled crypto cfg.passwd bytes ≡ native_scrambled crypto p' bytes
  unfolding native_scrambled
  native_same bytes = Errors.then_same (cut_to 20 bytes) _ _ alike.native

  key_same :
      (key : Option Bytes) (bytes : Bytes)
      → key_reply crypto key cfg.passwd bytes ≡ key_reply crypto key p' bytes
  key_same none bytes = refl
  key_same (some key) bytes = alike.encrypted bytes key

  sha256_same : (bytes : Bytes) → sha256_reply crypto cfg bytes ≡ sha256_reply crypto cfg' bytes
  unfolding sha256_reply
  sha256_same bytes = rw (plain_text, alike.given, alike.given') (key_same cfg.pub_key bytes)

  auth_same :
      (bytes plugin : Bytes)
      → cfg.allow_cleartext_passwords ≡ false
      → auth crypto cfg bytes plugin ≡ auth crypto cfg' bytes plugin
  unfolding auth
  auth_same bytes plugin forbidden =
      rw (auth, forbidden, alike.sha2 bytes, old_same bytes, native_same bytes, sha256_same bytes)
        refl

  module _ (env : ℕ → Sending) (room : ℕ) where
    send_same :
        (k : ℕ) (seed key : Bytes) (c : MysqlConn)
        → send_encrypted_password env room crypto cfg k seed key c
          ≡ send_encrypted_password env room crypto cfg' k seed key c
    unfolding send_encrypted_password
    send_same k seed key c =
        ap (λ r. and_then (done c r) (write_auth_switch_packet env room crypto cfg k))
          (alike.encrypted seed key)

    answer_same :
        (k : ℕ) (seed : Bytes) (key : Option Bytes) (c : MysqlConn)
        → encrypted_answer env room crypto cfg k seed key c
          ≡ encrypted_answer env room crypto cfg' k seed key c
    unfolding request_key
    answer_same k seed none c =
        then_same (request_key env room crypto cfg k c) _ _ (send_same (k + 1) seed)
    answer_same k seed (some key) c = send_same k seed key c

    module _ (no_socket : bytes_eq cfg.network (codes "unix") ≡ false) where
      full_same :
          (k : ℕ) (seed : Bytes) (c : MysqlConn)
          → full_authentication env room crypto cfg k seed c
            ≡ full_authentication env room crypto cfg' k seed c
      unfolding full_authentication
      full_same k seed c =
          rw (plain_text, no_socket)
            (ap (λ o. and_then o (λ _. read_result_ok)) (answer_same k seed cfg.pub_key c))

      caching_same :
          (k : ℕ) (seed bytes : Bytes) (c : MysqlConn)
          → caching_sha2_result env room crypto cfg k seed bytes c
            ≡ caching_sha2_result env room crypto cfg' k seed bytes c
      unfolding caching_sha2_result
      caching_same k seed [] c = refl
      caching_same k seed (b ∷ []) c =
          if_same (b == 3) _ _ _ _ c refl (if_same (b == 4) _ _ _ _ c (full_same k seed c) refl)
      caching_same k seed (b ∷ d ∷ bytes) c = refl

      sha256_result_same :
          (k : ℕ) (seed bytes : Bytes) (c : MysqlConn)
          → sha256_result env room crypto cfg k seed bytes c
            ≡ sha256_result env room crypto cfg' k seed bytes c
      unfolding sha256_result
      sha256_result_same k seed [] c = refl
      sha256_result_same k seed (b ∷ bytes) c =
          then_same (done c (key_of env room crypto cfg (b ∷ bytes))) _ _
            (λ key d. ap (λ o. and_then o (λ _. read_result_ok)) (send_same k seed key d))

      plugin_same :
          (plugin : Bytes) (k : ℕ) (seed : Bytes) (auth_data : Option Bytes) (c : MysqlConn)
          → plugin_result env room crypto cfg plugin k seed auth_data c
            ≡ plugin_result env room crypto cfg' plugin k seed auth_data c
      unfolding plugin_result
      plugin_same plugin k seed auth_data c =
          let bytes = elim auth_data as (λ r. Bytes) [ none ↦ [] | some bs ↦ bs ] in
          if_same (bytes_eq plugin (codes "caching_sha2_password")) _ _ _ _ c
            (caching_same k seed bytes c)
            (if_same (bytes_eq plugin (codes "sha256_password")) _ _ _ _ c
              (sha256_result_same k seed bytes c) refl)

      module _ (forbidden : cfg.allow_cleartext_passwords ≡ false) where
        answered_same :
            (b : Bool) (plugin seed : Bytes) (auth_data : Option Bytes) (c : MysqlConn)
            → switch_answered env room crypto cfg b plugin seed auth_data c
              ≡ switch_answered env room crypto cfg' b plugin seed auth_data c
        answered_same true plugin seed auth_data c = plugin_same plugin 1 seed auth_data c
        answered_same false plugin seed auth_data c = refl

        switch_same :
            (plugin old : Bytes) (auth_data : Option Bytes) (c : MysqlConn)
            → switch_plugin env room crypto cfg plugin old auth_data c
              ≡ switch_plugin env room crypto cfg' plugin old auth_data c
        unfolding switch_plugin
        switch_same plugin old auth_data c =
            let challenge = elim auth_data as (λ r. Bytes) [ none ↦ old | some bs ↦ bs ] in
            let seed = elim auth_data as (λ r. Bytes) [
              | none ↦ old
              | some bs ↦ take (length old) bs ++ drop (length bs) old
            ] in
            ap (λ r. and_then (done c r) (behind_reply env room crypto cfg plugin seed))
              (auth_same challenge plugin forbidden)
            ∙ then_same (done c (auth crypto cfg' challenge plugin)) _ _ (λ reply d.
              then_same (write_auth_switch_packet env room crypto cfg 0 reply d) _ _ (λ _ e.
                then_same (read_auth_result e) _ _
                  (λ answer f. answered_same (bytes_eq answer.1 []) plugin seed answer.0 f)))

        first_same :
            (b : Bool) (new_plugin plugin old : Bytes) (auth_data : Option Bytes) (c : MysqlConn)
            → first_answered env room crypto cfg b new_plugin plugin old auth_data c
              ≡ first_answered env room crypto cfg' b new_plugin plugin old auth_data c
        first_same true new_plugin plugin old auth_data c = plugin_same plugin 0 old auth_data c
        first_same false new_plugin plugin old auth_data c = switch_same new_plugin old auth_data c

        handle_same :
            (old plugin : Bytes) (c : MysqlConn)
            → handle_auth_result env room crypto cfg old plugin c
              ≡ handle_auth_result env room crypto cfg' old plugin c
        unfolding handle_auth_result
        handle_same old plugin c =
            then_same (read_auth_result c) _ _
              (λ answer d. first_same (bytes_eq answer.1 []) answer.1 plugin old answer.0 d)

-- Without TLS, over another network than "unix" and with the cleartext plugin not allowed, a
-- password shows on the connection only through the scrambles and the encryption: for two passwords
-- that these do not tell apart, the first answer to the challenge is the same for every plugin, and
-- whatever the server sends and the writes come to, `handleAuthResult` writes the same bytes,
-- returns the same and leaves the connection in the same state.
pub handle_auth_result-conceals :
    (env : ℕ → Sending) (room : ℕ) (crypto : Crypto) (cfg : DsnConfig) (p' : Bytes)
    → Alike crypto cfg.passwd p'
    → cfg.tls ≡ none
    → cfg.network ≢ codes "unix"
    → cfg.allow_cleartext_passwords ≡ false
    → (old plugin : Bytes) (c : MysqlConn)
    → (auth crypto cfg old plugin ≡ auth crypto (record cfg { passwd = p' }) old plugin)
      × (handle_auth_result env room crypto cfg old plugin c
          ≡ handle_auth_result env room crypto (record cfg { passwd = p' }) old plugin c)
handle_auth_result-conceals env room crypto cfg p' alike no_tls not_unix forbidden old plugin c =
    let no_socket : bytes_eq cfg.network (codes "unix") ≡ false =
      elim (Bool-cases (bytes_eq cfg.network (codes "unix"))) [
        | inl e ↦ absurd (not_unix (bytes_eq→eq cfg.network (codes "unix") e))
        | inr e ↦ e
      ] in
    (
      auth_same crypto cfg p' alike no_tls old plugin forbidden,
      handle_same crypto cfg p' alike no_tls env room no_socket forbidden old plugin c,
    )
