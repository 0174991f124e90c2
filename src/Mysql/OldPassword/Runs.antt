-- ===== src/Mysql/OldPassword/Runs.antt =====
-- The old hash of mysql/auth.go at concrete passwords, and its theorems at inputs.
use dbrwproxy.Prelude.{◌-◌, ◌≡◌, refl, Bytes, codes, []}
use dbrwproxy.Mysql.OldPassword.{MyRnd, my_rnd_max_val, pw_hash, scramble_old_password}

hash_of_empty : pw_hash [] ≡ (1345345333, 305419889)
unfolding pw_hash
hash_of_empty = refl

abbrev scramble : Bytes
scramble = codes "12345678"

scrambled :
    scramble_old_password scramble (codes "pass word")
    ≡ scramble_old_password scramble (codes "password")
unfolding scramble_old_password
scrambled = refl

abbrev highest : MyRnd
highest = record { seed1 = my_rnd_max_val - 1; seed2 = my_rnd_max_val - 1 }
