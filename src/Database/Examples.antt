-- ===== src/Database/Examples.antt =====
-- A query with two parameters whose result has an `id`, a small number `n` and a `name`.
use mathlib.Core.List.{List}
use netframework.Base.{
  true, false, inl, some, [], ◌∷◌, ◌++◌, codes, ok, ◌>>=◌, pos, negsuc, ◌≡◌, refl,
}
use netframework.Database.Column.{
  Field, mysql_type_short, mysql_type_long, mysql_type_string, Column, column_of, str, shortno,
  intno, Written, untouched, short_bits, long_bits, chars, find_column,
}
use netframework.Database.Statement.{
  unbound, int_param, text_param, Value, int_value, text_value, bind_param, execute_statement,
  store_result, PsImpl, Answers, count_marks, prepare, bind_value_int, bind_value_str,
  fill_column_data, store_row, next_result, value_int, value_str, execute,
}
use netframework.Database.Params.{bound_at, bind_value_int-bind_value_str}
use netframework.Database.Binding.{bind_all, execute-bind_all}
use netframework.Database.Filling.{fresh_column, filled}
use netframework.Database.Columns.{fetched, value_int-next_result}
use netframework.Database.Kept.{value_int-null}

abbrev statement : PsImpl
statement = record { stmt = true; params = []; column_data = []; columns = [] }

abbrev two : PsImpl
two = record statement { params = unbound ∷ unbound ∷ [] }

bind_value_int-bind_value_str_example :
    (bind_value_int 2 (pos 7) two ≡ bound_at 2 (int_param (pos 7)) two)
    × (bind_value_str 2 (codes "x") two ≡ bound_at 2 (text_param (codes "x") 1) two)
bind_value_int-bind_value_str_example = bind_value_int-bind_value_str 2 (pos 7) (codes "x") two refl

abbrev id_field : Field
id_field = record { name = codes "id"; field_type = mysql_type_long; length = 11 }

abbrev n_field : Field
n_field = record { name = codes "n"; field_type = mysql_type_short; length = 6 }

abbrev name_field : Field
name_field = record { name = codes "name"; field_type = mysql_type_string; length = 4 }

abbrev answers : Answers
answers = record {
  bind_param_fails = false;
  param_count = 2;
  execute_fails = false;
  store_result_fails = false;
  metadata = some (id_field ∷ n_field ∷ name_field ∷ []);
  field_count = 3;
  bind_result_fails = false;
}

abbrev bound_values : List Value
bound_values = int_value (negsuc 0) ∷ text_value (codes "ab") ∷ []

abbrev bound : PsImpl
bound = record statement { params = int_param (negsuc 0) ∷ text_param (codes "ab") 2 ∷ [] }

execute-bind_all_example :
    (bind_all 0 bound_values (prepare (codes "a?b?") true false statement).1.0 ≡ ok bound)
    × (execute answers bound ≡ (
        fill_column_data answers bound >>= λ r.
        ok (true, (r.0, bind_param ∷ execute_statement bound_values ∷ store_result ∷ r.1))))
unfolding count_marks
execute-bind_all_example =
    execute-bind_all answers (codes "a?b?") true (int_value (negsuc 0))
      (text_value (codes "ab") ∷ []) statement refl refl refl refl (tt, ((refl, (refl, tt)), tt))
      refl refl refl

abbrev fields : List Field
fields = id_field ∷ n_field ∷ name_field ∷ []

-- -1 in the column `n` is 65535 in 16 bits.
abbrev writes : List Written
writes = long_bits 1 ∷ short_bits 65535 ∷ chars (codes "abc" ++ (0 ∷ [])) ∷ []

abbrev row : List Column
row =
    record { buffer_type = mysql_type_long; storage = intno 1 }
    ∷ record { buffer_type = mysql_type_short; storage = shortno 65535 }
    ∷ record { buffer_type = mysql_type_string; storage = str 4 (codes "abc" ++ (0 ∷ [])) }
    ∷ []

written_row :
    store_row writes (fresh_column id_field ∷ fresh_column n_field ∷ fresh_column name_field ∷ [])
    ≡ ok row
unfolding store_row column_of
written_row = refl

value_int-next_result_example :
    ((fill_column_data answers bound >>= λ r. next_result true writes r.0)
      ≡ ok (true, fetched row (filled fields bound)))
    × (value_int (codes "n") (fetched row (filled fields bound)) ≡ ok (some (pos 65535)))
value_int-next_result_example =
    value_int-next_result answers (id_field ∷ []) (name_field ∷ []) n_field (long_bits 1 ∷ [])
      (chars (codes "abc" ++ (0 ∷ [])) ∷ []) row bound refl refl refl refl refl ((λ e. cc e), tt)
      refl 65535 (inl refl) written_row

-- The next row has NULL in `id`.
abbrev next_writes : List Written
next_writes = untouched ∷ short_bits 2 ∷ []

abbrev next_row : List Column
next_row =
    record { buffer_type = mysql_type_long; storage = intno 1 }
    ∷ record { buffer_type = mysql_type_short; storage = shortno 2 }
    ∷ record { buffer_type = mysql_type_string; storage = str 4 (codes "abc" ++ (0 ∷ [])) }
    ∷ []

abbrev after_first : PsImpl
after_first = record bound {
  column_data = (codes "id", 0) ∷ (codes "n", 1) ∷ (codes "name", 2) ∷ [];
  columns = row;
}

written_next_row : store_row next_writes row ≡ ok next_row
unfolding store_row
written_next_row = refl

id_found : find_column (codes "id") after_first.column_data ≡ some 0
unfolding find_column
id_found = refl

value_int-null_example :
    (next_result true next_writes after_first ≡ ok (true, fetched next_row after_first))
    × (value_int (codes "id") (fetched next_row after_first) ≡ value_int (codes "id") after_first)
    × (value_str (codes "id") (fetched next_row after_first) ≡ value_str (codes "id") after_first)
value_int-null_example =
    value_int-null (codes "id") [] (short_bits 2 ∷ []) 0
      (record { buffer_type = mysql_type_long; storage = intno 1 }) next_row after_first refl
      id_found refl refl written_next_row
