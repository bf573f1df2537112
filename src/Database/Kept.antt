-- ===== src/Database/Kept.antt =====
-- What stays of an earlier row, or an earlier result, in the buffers of a statement.
use mathlib.Core.List.{List}
use netframework.Base.{
  ℕ, Bool, true, false, not, some, [], ◌∷◌, ◌++◌, if◌then◌else◌, length, get_elem?, Bytes, ok,
  ◌>>=◌, ◌≡◌, refl, ◌∙◌, sym, ap,
}
use netframework.Database.Column.{Column, Written, untouched, store_at, store, find_column}
use netframework.Database.Statement.{
  Param, Value, PsImpl, Answers, Call, bind_param, execute_statement, store_result, read_params,
  fill_where_empty, fill_column_data, store_row, next_result, value_at, value_int, value_str,
  execute,
}
use netframework.Database.Columns.{
  fetched, next_result-fetched, value_int-value_at, value_str-value_at,
}
use netframework.Database.Binding.{execute-read}
use netframework.Database.Filling.{store_row-at}

-- A row that the library writes inside the buffers, with a NULL in a column, is fetched with
-- success, and the name of the column then reads, as a number and as a text, what it read before:
-- the value of the row before, or what the buffer held first. Nothing says that the value is NULL.
pub value_int-null :
    (name : Bytes) (pre post : List Written) (i : ℕ) (column : Column) (row : List Column)
    (s : PsImpl)
    → s.stmt ≡ true
    → find_column name s.column_data ≡ some i
    → get_elem? s.columns i ≡ some column
    → length pre ≡ i
    → store_row (pre ++ (untouched ∷ post)) s.columns ≡ ok row
    → (next_result true (pre ++ (untouched ∷ post)) s ≡ ok (true, fetched row s))
      × (value_int name (fetched row s) ≡ value_int name s)
      × (value_str name (fetched row s) ≡ value_str name s)
unfolding value_at store store_at
value_int-null name pre post i column row s ready found here place rows =
    let kept = store_row-at pre untouched post s.columns i column column row place here refl rows in
    (
      next_result-fetched (pre ++ (untouched ∷ post)) row s ready rows,
      value_int-value_at name (fetched row s) ready
          ∙ rw (found, kept, here) refl
          ∙ sym (value_int-value_at name s ready),
      value_str-value_at name (fetched row s) ready
          ∙ rw (found, kept, here) refl
          ∙ sym (value_str-value_at name s ready),
    )

-- A statement with parameters that the library can read, whose names are set by an earlier result,
-- keeps the names and the buffers in a further `execute` whose library calls return 0, also where
-- it has been prepared again and the result has other columns: the metadata are not asked for, no
-- buffer is bound, and `execute` returns true.
pub execute-named :
    (answers : Answers) (param : Param) (params : List Param) (values : List Value)
    (entry : Bytes × ℕ) (entries : List (Bytes × ℕ)) (s : PsImpl)
    → s.stmt ≡ true
    → s.params ≡ param ∷ params
    → s.column_data ≡ entry ∷ entries
    → answers.bind_param_fails ≡ false
    → answers.execute_fails ≡ false
    → answers.store_result_fails ≡ false
    → read_params answers.param_count s.params ≡ ok values
    → execute answers s ≡ ok (true, (s, bind_param ∷ execute_statement values ∷ store_result ∷ []))
unfolding fill_column_data fill_where_empty
execute-named answers param params values entry entries s ready e named binds runs stores reads =
    let filled_before : fill_column_data answers s ≡ ok (s, []) =
      ap (λ (go : Bool). if not go then ok (s, []) else fill_where_empty s.column_data answers s)
        ready
      ∙ ap (λ (names : List (Bytes × ℕ)). fill_where_empty names answers s) named in
    execute-read answers param params values s ready e binds runs stores reads
    ∙ ap
        (λ r. r >>= λ (r : PsImpl × List Call).
          ok (true, (r.0, bind_param ∷ execute_statement values ∷ store_result ∷ r.1)))
        filled_before
