-- ===== src/Mysql/Dates/Runs.antt =====
-- Concrete dates and times, and the theorem on them at a concrete input.
use dbrwproxy.Prelude.{◌≡◌, refl, Bytes, codes, [], ◌∷◌, arith, length, bytes_eq}
use dbrwproxy.Prelude.Int.{pos}
use dbrwproxy.Prelude.Decimal.{itoa}
use dbrwproxy.Mysql.Errors.{ok, err, panic, message}
use dbrwproxy.Mysql.Dates.{date, parse_date_time, parse_binary_date_time}
use dbrwproxy.Mysql.Dates.Format.{format_binary_date_time, format_binary_time, append_date_time}
use dbrwproxy.Mysql.Dates.Agree.{IsDate, measured, parse_date_time-format_binary_date_time}

-- 2024-02-29 23:59:58.007008
abbrev leap : Bytes
leap = 0xE8 ∷ 0x07 ∷ 2 ∷ 29 ∷ 23 ∷ 59 ∷ 58 ∷ 0x60 ∷ 0x1B ∷ 0 ∷ 0 ∷ []

leap-IsDate : IsDate leap
leap-IsDate =
    measured 0xE8 0x07 2 29 23 59 58 0x60 0x1B 0 0 (omega arith) (omega arith) (omega arith)

parse_date_time-format_binary_date_time_example :
    (written : Bytes) × (format_binary_date_time leap 26 ≡ ok written)
    × (parse_date_time written (codes "UTC")
        ≡ parse_binary_date_time (length leap) leap (codes "UTC"))
parse_date_time-format_binary_date_time_example =
    parse_date_time-format_binary_date_time leap (codes "UTC") leap-IsDate

shorter_runs : format_binary_date_time leap 22 ≡ ok (codes "2024-02-29 23:59:58.00")
unfolding format_binary_date_time
shorter_runs = refl

fraction_runs :
    parse_date_time (codes "2024-02-29 23:59:58.5") (codes "UTC")
    ≡ ok (date 2024 2 29 23 59 58 500000000 (codes "UTC"))
unfolding parse_date_time bytes_eq
fraction_runs = refl

month_fails : parse_date_time (codes "2024-x2-29") (codes "UTC") ≡ err (message (codes "not [0-9]"))
unfolding parse_date_time bytes_eq
month_fails = refl

-- A month of three digits is an index out of the tables.
month_panics : format_binary_date_time (0xE8 ∷ 0x07 ∷ 100 ∷ 1 ∷ []) 10 ≡ panic
unfolding format_binary_date_time
month_panics = refl

-- 1 day and 2 hours, below zero.
time_runs : format_binary_time (1 ∷ 4 ∷ 0 ∷ 0 ∷ 0 ∷ 5 ∷ 30 ∷ 9 ∷ []) 8 ≡ ok (codes "-101:30:09")
unfolding format_binary_time itoa
time_runs = refl

append_runs :
    append_date_time (codes "x") (pos 999) 1 2 3 4 5 60000 ≡ ok (codes "x0999-01-02 03:04:05.00006")
unfolding append_date_time
append_runs = refl
