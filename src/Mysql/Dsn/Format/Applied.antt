-- ===== src/Mysql/Dsn/Format/Applied.antt =====
-- What each parameter that `FormatDSN` of mysql/dsn.go writes, or leaves out, sets in `ParseDSN`.
use dbrwproxy.Prelude.{
  ◌≡◌, refl, sym, ap, ◌∙◌, Bytes, IsByte, codes, List, [], ◌∷◌, ◌++◌, Bool, true, false, not, some,
  All, bytes_eq, bytes_eq→eq, arith,
}
use dbrwproxy.Prelude.Int.{ℤ, pos, negsuc, ltb_ℤ, leb_ℤ}
use dbrwproxy.Prelude.Decimal.{itoa}
use dbrwproxy.Mysql.Errors.{then_same, Result, ok, err, panic, ◌>>=◌}
use dbrwproxy.Mysql.Dsn.Params.{
  DsnConfig, Registers, Setter, flags, flag_named, read_bool, apply_param, other_param, or_message,
  tls_value,
}
use dbrwproxy.Mysql.Dsn.Numbers.{IsInt64, atoi-itoa}
use dbrwproxy.Mysql.Dsn.Format.{optional, optional_duration, is_set, int_eq, query_escape}
use dbrwproxy.Mysql.Dsn.Format.Escaping.{unescape-query_escape}
use dbrwproxy.Mysql.Dsn.Format.Written.{apply_written}

then_assoc :
    {A : Type 0} {B : Type 0} {C : Type 0} (r : Result A) (f : A → Result B) (g : B → Result C)
    → (r >>= (λ a. f a >>= g)) ≡ ((r >>= f) >>= g)
then_assoc panic f g = refl
then_assoc (err e) f g = refl
then_assoc (ok a) f g = refl

apply_written-append :
    (registers : Registers) (ps qs : List (Bytes × Bytes)) (c : DsnConfig)
    → apply_written registers (ps ++ qs) c
      ≡ (apply_written registers ps c >>= apply_written registers qs)
unfolding apply_written
apply_written-append registers [] qs c = refl
apply_written-append registers (p ∷ ps) qs c =
    then_same (apply_param registers p.0 p.1 c) _ _ (apply_written-append registers ps qs)
    ∙ then_assoc (apply_param registers p.0 p.1 c) (apply_written registers ps)
        (apply_written registers qs)

pub both :
    (registers : Registers) (ps qs : List (Bytes × Bytes)) (c c' : DsnConfig) (r : Result DsnConfig)
    → apply_written registers ps c ≡ ok c'
    → apply_written registers qs c' ≡ r
    → apply_written registers (ps ++ qs) c ≡ r
both registers ps qs c c' r h k =
    apply_written-append registers ps qs c ∙ ap (λ x. x >>= apply_written registers qs) h ∙ k

pub flag_on :
    (registers : Registers) (name : Bytes) (set : Setter) (b : Bool) (c : DsnConfig)
    → flag_named name flags ≡ some set
    → set false c ≡ c
    → apply_written registers (optional b name (codes "true")) c ≡ ok (set b c)
unfolding apply_written apply_param read_bool bytes_eq
flag_on registers name set false c e h = ap ok (sym h)
flag_on registers name set true c e h = rw (apply_param, e) refl

pub flag_off :
    (registers : Registers) (name : Bytes) (set : Setter) (b : Bool) (c : DsnConfig)
    → flag_named name flags ≡ some set
    → set true c ≡ c
    → apply_written registers (optional (not b) name (codes "false")) c ≡ ok (set b c)
unfolding apply_written apply_param read_bool bytes_eq
flag_off registers name set true c e h = ap ok (sym h)
flag_off registers name set false c e h = rw (apply_param, e) refl

-- A parameter under a condition, where both cases come to the same.
value_applied :
    (registers : Registers) (written : Bool) (name value : Bytes) (c c' : DsnConfig)
    → (written ≡ true → apply_param registers name value c ≡ ok c')
    → (written ≡ false → c ≡ c')
    → apply_written registers (optional written name value) c ≡ ok c'
unfolding apply_written
value_applied registers false name value c c' h k = ap ok (k refl)
value_applied registers true name value c c' h k =
    ap (λ r. r >>= apply_written registers []) (h refl)

is_set→ : (text : Bytes) → is_set text ≡ false → text ≡ []
unfolding bytes_eq
is_set→ [] h = refl
is_set→ (x ∷ xs) h = cc

not→ : (b : Bool) → not b ≡ false → b ≡ true
not→ true h = refl
not→ false h = cc

pub collation_applied :
    (registers : Registers) (text : Bytes) (c : DsnConfig)
    → record c { collation = [] } ≡ c
    → apply_written registers (optional (is_set text) (codes "collation") text) c
      ≡ ok (record c { collation = text })
unfolding apply_param other_param flag_named flags bytes_eq
collation_applied registers text c h =
    value_applied registers (is_set text) (codes "collation") text c (record c { collation = text })
      (λ e. refl) (λ e. sym h ∙ ap (λ t. record c { collation = t }) (sym (is_set→ text e)))

pub loc_applied :
    (registers : Registers) (text : Bytes) (c : DsnConfig)
    → All IsByte text
    → registers.load_location text ≡ some text
    → record c { loc = codes "UTC" } ≡ c
    → apply_written registers
        (optional (not (bytes_eq text (codes "UTC"))) (codes "loc") (query_escape text))
        c
      ≡ ok (record c { loc = text })
unfolding apply_param other_param flag_named flags bytes_eq or_message
loc_applied registers text c h known e =
    value_applied registers (not (bytes_eq text (codes "UTC"))) (codes "loc") (query_escape text) c
      (record c { loc = text }) (λ w. rw (unescape-query_escape text h, known) refl)
      (λ w.
        sym e ∙ ap (λ t. record c { loc = t }) (sym (bytes_eq→eq text (codes "UTC") (not→ _ w))))

not_negative : (d : ℤ) → leb_ℤ (pos 0) d ≡ true → ltb_ℤ (pos 0) d ≡ false → d ≡ pos 0
not_negative (pos n) h k = ap pos (ground arith)
not_negative (negsuc n) h k = absurd (ground arith)

-- A duration whose parameter sets a field.
pub duration_applied :
    (registers : Registers) (duration_text : ℤ → Bytes) (name : Bytes) (d : ℤ) (set : ℤ → DsnConfig)
    (c : DsnConfig)
    → ((value : Bytes)
        → apply_param registers name value c
          ≡ (or_message (registers.parse_duration value) (codes "duration") >>= λ x. ok (set x)))
    → (ltb_ℤ (pos 0) d ≡ true → registers.parse_duration (duration_text d) ≡ some d)
    → leb_ℤ (pos 0) d ≡ true
    → set (pos 0) ≡ c
    → apply_written registers (optional_duration duration_text name d) c ≡ ok (set d)
unfolding or_message
duration_applied registers duration_text name d set c sets known positive e =
    value_applied registers (ltb_ℤ (pos 0) d) name (duration_text d) c (set d)
      (λ w.
        sets (duration_text d)
        ∙ ap (λ o. or_message o (codes "duration") >>= λ x. ok (set x)) (known w))
      (λ w. sym e ∙ ap set (sym (not_negative d positive w)))

pub server_pub_key_applied :
    (registers : Registers) (text : Bytes) (c : DsnConfig)
    → All IsByte text
    → record c { server_pub_key = [] } ≡ c
    → apply_written registers (optional (is_set text) (codes "serverPubKey") (query_escape text)) c
      ≡ ok (record c { server_pub_key = text })
unfolding apply_param other_param flag_named flags bytes_eq or_message
server_pub_key_applied registers text c h e =
    value_applied registers (is_set text) (codes "serverPubKey") (query_escape text) c
      (record c { server_pub_key = text }) (λ w. rw (unescape-query_escape text h) refl)
      (λ w. sym e ∙ ap (λ t. record c { server_pub_key = t }) (sym (is_set→ text w)))

pub tls_applied :
    (registers : Registers) (text : Bytes) (c : DsnConfig)
    → tls_value (query_escape text) ≡ ok text
    → record c { tls_config = [] } ≡ c
    → apply_written registers (optional (is_set text) (codes "tls") (query_escape text)) c
      ≡ ok (record c { tls_config = text })
unfolding apply_param other_param flag_named flags bytes_eq
tls_applied registers text c h e =
    value_applied registers (is_set text) (codes "tls") (query_escape text) c
      (record c { tls_config = text })
      (λ w. ap (λ r. r >>= λ t. ok (record c { tls_config = t })) h)
      (λ w. sym e ∙ ap (λ t. record c { tls_config = t }) (sym (is_set→ text w)))

int_eq→ : (a b : ℤ) → int_eq a b ≡ true → a ≡ b
unfolding int_eq
int_eq→ (pos a) (pos b) h = ap pos (ground arith)
int_eq→ (negsuc a) (negsuc b) h = ap negsuc (ground arith)
int_eq→ (pos a) (negsuc b) h = cc
int_eq→ (negsuc a) (pos b) h = cc

pub max_allowed_packet_applied :
    (registers : Registers) (n : ℤ) (c : DsnConfig)
    → IsInt64 n
    → record c { max_allowed_packet = pos 67108864 } ≡ c
    → apply_written registers
        (optional (not (int_eq n (pos 67108864))) (codes "maxAllowedPacket") (itoa n))
        c
      ≡ ok (record c { max_allowed_packet = n })
unfolding apply_param other_param flag_named flags bytes_eq or_message
max_allowed_packet_applied registers n c h e =
    value_applied registers (not (int_eq n (pos 67108864))) (codes "maxAllowedPacket") (itoa n) c
      (record c { max_allowed_packet = n })
      (λ w.
        ap (λ o. or_message o (codes "atoi") >>= λ x. ok (record c { max_allowed_packet = x }))
          (atoi-itoa n h))
      (λ w.
        sym e
        ∙ ap (λ t. record c { max_allowed_packet = t }) (sym (int_eq→ n (pos 67108864) (not→ _ w))))
