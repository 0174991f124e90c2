-- ===== src/Mysql/Interpolate/Runs.antt =====
-- A concrete query with arguments, and the theorem on it.
use dbrwproxy.Prelude.{◌≡◌, refl, Bytes, codes, List, [], ◌∷◌, some, arith}
use dbrwproxy.Prelude.Int.{pos, negsuc}
use dbrwproxy.Prelude.Decimal.{itoa}
use dbrwproxy.Mysql.Errors.{ok, err, skip}
use dbrwproxy.Mysql.Escape.{backslash_code}
use dbrwproxy.Mysql.Escape.Append.{escaped}
use dbrwproxy.Mysql.Buffer.{new_buffer}
use dbrwproxy.Mysql.Interpolate.{
  Moment, Argument, null, int, moment, bytes, text, interpolate_params, count_marks,
  no_backslash_escapes,
}
use dbrwproxy.Mysql.Interpolate.Splice.{splice, literals, interpolate_params-splice}

abbrev nothing_spare : Bytes → Bytes
nothing_spare buf = []

abbrev insert_query : Bytes
insert_query = codes "INSERT INTO t VALUES (?,?,?,?,?)"

abbrev noon : Moment
noon = record {
  year = pos 2024;
  month = 2;
  day = 29;
  hour = 12;
  minute = 0;
  second = 0;
  nanosecond = 0;
}

abbrev values : List Argument
values =
    null
    ∷ int (negsuc 6)
    ∷ text (codes "it's")
    ∷ bytes (some (codes "a?b"))
    ∷ moment (some noon)
    ∷ []

abbrev written : List Bytes
written =
    codes "NULL"
    ∷ codes "-7"
    ∷ codes "'it\\'s'"
    ∷ codes "_binary'a?b'"
    ∷ codes "'2024-02-29 12:00:00'"
    ∷ []

splice_runs :
    splice insert_query written
    ≡ codes "INSERT INTO t VALUES (NULL,-7,'it\\'s',_binary'a?b','2024-02-29 12:00:00')"
unfolding splice
splice_runs = refl

-- One argument is missing.
missing_runs :
    interpolate_params nothing_spare 2 (pos 1000) new_buffer insert_query (null ∷ []) ≡ err skip
unfolding interpolate_params
missing_runs = refl

interpolate_params-splice_example :
    interpolate_params nothing_spare 2 (pos 1000) new_buffer insert_query values
    ≡ ok (splice insert_query written)
unfolding new_buffer count_marks literals itoa splice no_backslash_escapes escaped backslash_code
interpolate_params-splice_example =
    interpolate_params-splice nothing_spare 2 (pos 1000) new_buffer insert_query values written refl
      refl refl (omega arith)
