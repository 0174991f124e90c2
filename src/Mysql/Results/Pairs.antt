-- ===== src/Mysql/Results/Pairs.antt =====
-- mysql/packets.go and mysql/rows.go: the functions that read an answer, in pairs, of which the one whose
-- name ends in 1 relays what it reads.
use dbrwproxy.Prelude.{ℕ, Bytes, List, Option}
use dbrwproxy.Prelude.Int.{ℤ}
use dbrwproxy.Mysql.Values.{Conversion, Value}
use dbrwproxy.Mysql.Connection.{MysqlField, M, plain, relaying}
use dbrwproxy.Mysql.Results.{
  until_eof, columns_of, header_of, next_set, not_empty_set, next_result_set_of, row_of, next_row,
}

unfoldable pub read_until_eof : ℕ → M (Unit {0})
unfolding until_eof
read_until_eof = until_eof plain

unfoldable pub read_until_eof1 : ℕ → M (Unit {0})
unfolding until_eof
read_until_eof1 = until_eof relaying

unfoldable pub read_columns : ℕ → ℤ → M (List MysqlField)
unfolding columns_of
read_columns = columns_of plain

unfoldable pub read_columns1 : ℕ → ℤ → M (List MysqlField)
unfolding columns_of
read_columns1 = columns_of relaying

module _ (in_file : Bytes → M (Unit {0})) where
  unfoldable pub read_result_set_header_packet : M ℤ
  unfolding header_of
  read_result_set_header_packet = header_of plain in_file

  unfoldable pub read_result_set_header_packet1 : M ℤ
  unfolding header_of
  read_result_set_header_packet1 = header_of relaying in_file

  unfoldable pub next_result_set : ℕ → M ℤ
  unfolding next_set
  next_result_set = next_set plain in_file

  unfoldable pub next_result_set1 : ℕ → M ℤ
  unfolding next_set
  next_result_set1 = next_set relaying in_file

  unfoldable pub next_not_empty_result_set : ℕ → M ℤ
  unfolding not_empty_set
  next_not_empty_result_set = not_empty_set plain in_file

  unfoldable pub next_not_empty_result_set1 : ℕ → M ℤ
  unfolding not_empty_set
  next_not_empty_result_set1 = not_empty_set relaying in_file

  -- `NextResultSet` and `NextResultSet1` of `TextRows`.
  unfoldable pub text_next_result_set : ℕ → M (Unit {0})
  unfolding next_result_set_of
  text_next_result_set = next_result_set_of plain in_file

  unfoldable pub text_next_result_set1 : ℕ → M (Unit {0})
  unfolding next_result_set_of
  text_next_result_set1 = next_result_set_of relaying in_file

module _ {X : Type 0} (convert : Conversion → Bytes → Option X) where
  unfoldable pub read_row : ℕ → M (List (Value X))
  unfolding row_of
  read_row = row_of plain convert

  unfoldable pub read_row1 : ℕ → M (List (Value X))
  unfolding row_of
  read_row1 = row_of relaying convert

  -- `Next` and `Next1` of `TextRows`.
  unfoldable pub next : ℕ → M (List (Value X))
  unfolding next_row
  next = next_row plain convert

  unfoldable pub next1 : ℕ → M (List (Value X))
  unfolding next_row
  next1 = next_row relaying convert
