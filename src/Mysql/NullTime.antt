-- ===== src/Mysql/NullTime.antt =====
-- mysql/nulltime.go: a time of a database that may be missing, as a source of rows gives it and back.
use dbrwproxy.Prelude.{◌≡◌, refl, arith, if◌then◌else◌, Bytes, codes, Bool, true, false, ◌++◌}
use dbrwproxy.Mysql.Errors.{MysqlError, message, Result, ok, err, panic}
use dbrwproxy.Mysql.Dates.{Time, zero_time, parse_date_time}

-- A driver.Value that `Scan` tells apart; the last has the name of its type.
data Scanned : Type 0 where
  null : Scanned
  time : Time → Scanned
  bytes : Bytes → Scanned
  string : Bytes → Scanned
  other : Bytes → Scanned

record NullTime : Type 0 where
  time : Time
  valid : Bool

-- A NullTime with the error that is returned beside it.
record Scan : Type 0 where
  target : NullTime
  outcome : Result (Unit {0})

-- `parseDateTime` returns the zero time with every error.
unfoldable parsed : NullTime → Result Time → Scan
parsed nt (ok t) = record { target = record { time = t; valid = true }; outcome = ok tt }
parsed nt (err e) = record { target = record { time = zero_time; valid = false }; outcome = err e }
parsed nt panic = record { target = nt; outcome = panic }

-- `Scan`
unfoldable scan : Scanned → NullTime → Scan
unfolding parse_date_time parsed
scan null nt = record { target = record { time = zero_time; valid = false }; outcome = ok tt }
scan (time v) nt = record { target = record { time = v; valid = true }; outcome = ok tt }
scan (bytes v) nt = parsed nt (parse_date_time v (codes "UTC"))
scan (string v) nt = parsed nt (parse_date_time v (codes "UTC"))
scan (other name) nt = record {
  target = record nt { valid = false };
  outcome = err (message (codes "can't convert " ++ name ++ codes " to time.Time"));
}

-- `Value`
unfoldable value : NullTime → Scanned
value nt = if nt.valid then time nt.time else null

-- What `Value` gives, `Scan` takes back: a valid time as it is, any other as the zero time.
scan-value :
    (t : Time) (valid : Bool) (held : NullTime)
    → scan (value (record { time = t; valid = valid })) held ≡ record {
      target =
          if valid
          then record { time = t; valid = true }
          else record { time = zero_time; valid = false };
      outcome = ok tt;
    }
unfolding scan value
scan-value t true held = refl
scan-value t false held = refl

parsed_invalid :
    (nt : NullTime) (r : Result Time) (e : MysqlError)
    → (parsed nt r).outcome ≡ err e
    → (parsed nt r).target.valid ≡ false
unfolding parsed
parsed_invalid nt (ok t) e h = ground arith
parsed_invalid nt (err e') e h = refl
parsed_invalid nt panic e h = cc

-- A value that `Scan` fails on leaves no valid time, whatever was held before.
scan_failed :
    (v : Scanned) (nt : NullTime) (e : MysqlError)
    → (scan v nt).outcome ≡ err e
    → (scan v nt).target.valid ≡ false
unfolding scan
scan_failed null nt e h = refl
scan_failed (time v) nt e h = ground arith
scan_failed (bytes v) nt e h = parsed_invalid nt (parse_date_time v (codes "UTC")) e h
scan_failed (string v) nt e h = parsed_invalid nt (parse_date_time v (codes "UTC")) e h
scan_failed (other name) nt e h = refl
