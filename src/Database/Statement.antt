-- ===== src/Database/Statement.antt =====
-- dblib/db.cpp, `PreparedStatement` and its `PSImpl`. What the library of MySQL returns, and what it
-- writes into the buffers that it was given, is an argument.
use mathlib.Core.List.{List, map}
use netframework.Base.{
  ℕ, zero, suc, ◌+◌, ◌-◌, ltb, leb, ◌==◌, Bool, true, false, not, ◌&&◌, Option, none, some, [], ◌∷◌,
  ◌++◌, if◌then◌else◌, length, take, replicate, get_elem?, Bytes, Result, ok, err, undefined, ◌>>=◌,
  ℤ,
}
use netframework.Database.Backend.{MySql}
use netframework.Database.Column.{
  Field, Column, Written, new_column, column_of, store, read_int, read_str, assign, find_column,
}

-- A parameter: its `MYSQL_BIND` with the buffer. The buffer of a text is a copy that ends at the first
-- zero byte, and `buffer_length` is the size of the text. An `int` stands in `paramBindData`, and its
-- length in `paramLength`; `dangling` points to where these were before they moved.
pub data Param : Type 0 where
  unbound dangling : Param
  int_param : ℤ → Param
  text_param : Bytes → ℕ → Param

-- What the library reads from a parameter.
pub data Value : Type 0 where
  no_value : Value
  int_value : ℤ → Value
  text_value : Bytes → Value

-- The calls of the library with the handle of the statement; `report` prints its message.
pub data Call : Type 0 where
  prepare_query : Bytes → Call
  bind_param store_result result_metadata free_result close_statement report : Call
  execute_statement : List Value → Call
  bind_result : List Column → Call

-- The flag is `stmt_ != nullptr`.
pub record PsImpl : Type 0 where
  pub stmt : Bool
  pub params : List Param
  pub column_data : List (Bytes × ℕ)
  pub columns : List Column

-- What the library returns in one `execute`: whether the calls fail, how many parameters the query
-- has, and the columns of its result.
pub record Answers : Type 0 where
  pub bind_param_fails : Bool
  pub param_count : ℕ
  pub execute_fails : Bool
  pub store_result_fails : Bool
  pub metadata : Option (List Field)
  pub field_count : ℕ
  pub bind_result_fails : Bool

-- The flag says that `mysql_stmt_init` gave a handle.
unfoldable pub new_statement : MySql → Bool → PsImpl
new_statement mysql created = record {
  stmt = if mysql.is_connected then created else false;
  params = [];
  column_data = [];
  columns = [];
}

-- `resize`.
abbrev pub resize {ℓ} : {A : Type ℓ} → ℕ → A → List A → List A
resize n blank xs = take n xs ++ replicate (n - length xs) blank

-- An element of a vector; outside it is undefined.
unfoldable pub update_at {ℓ} : {A : Type ℓ} → ℕ → (A → A) → List A → Result (List A)
update_at i f [] = err undefined
update_at zero f (x ∷ xs) = ok (f x ∷ xs)
update_at (suc i) f (x ∷ xs) = update_at i f xs >>= λ ys. ok (x ∷ ys)

-- `std::count` of question marks.
unfoldable pub count_marks : Bytes → ℕ
count_marks [] = 0
count_marks (c ∷ query) = let rest = count_marks query in if c == b'?' then suc rest else rest

abbrev pub moved_param : Param → Param
moved_param (int_param v) = dangling
moved_param param = param

-- The flag `moves` says that vectors which grow get new storage.
unfoldable pub resize_params : Bool → ℕ → List Param → List Param
resize_params moves n params =
    resize n unbound (if moves && ltb (length params) n then map moved_param params else params)

unfoldable pub prepare : Bytes → Bool → Bool → PsImpl → Bool × (PsImpl × List Call)
unfolding count_marks resize_params
prepare query moves fails s = if not s.stmt then (false, (s, [])) else (
  not fails,
  (
    record s { params = resize_params moves (count_marks query) s.params },
    prepare_query query ∷ (if fails then report ∷ [] else []),
  ),
)

-- The beginning of a text up to a zero byte, which `c_str` is read to.
abbrev pub c_string : Bytes → Bytes
c_string [] = []
c_string (c ∷ text) = let rest = c_string text in if c == 0 then [] else c ∷ rest

unfoldable pub bind_value : ℕ → Param → PsImpl → Result (Bool × PsImpl)
unfolding update_at
bind_value param bound s =
    if not s.stmt
    then ok (false, s)
    else if ltb (length s.params) param
    then ok (false, s)
    else (update_at param (λ old. bound) s.params >>= λ params.
        ok (true, record s { params = params }))

-- `bindValue` of an `int`.
unfoldable pub bind_value_int : ℕ → ℤ → PsImpl → Result (Bool × PsImpl)
unfolding bind_value
bind_value_int param v s = bind_value param (int_param v) s

-- `bindValue` of a string.
unfoldable pub bind_value_str : ℕ → Bytes → PsImpl → Result (Bool × PsImpl)
unfolding bind_value
bind_value_str param v s = bind_value param (text_param (c_string v) (length v)) s

-- The copy ends with a zero byte, and a read behind that is undefined.
unfoldable pub read_param : Param → Result Value
read_param unbound = ok no_value
read_param dangling = err undefined
read_param (int_param v) = ok (int_value v)
read_param (text_param buffer buffer_length) =
    if leb buffer_length (length buffer + 1)
    then ok (text_value (take buffer_length (buffer ++ (0 ∷ []))))
    else err undefined

-- The library reads as many parameters as the query has.
unfoldable pub read_params : ℕ → List Param → Result (List Value)
unfolding read_param
read_params zero params = ok []
read_params (suc n) [] = err undefined
read_params (suc n) (param ∷ params) =
    read_param param >>= λ value. read_params n params >>= λ values. ok (value ∷ values)

-- The loop over the fields, from column `i` on.
unfoldable pub fill_fields : ℕ → List Field → PsImpl → Result PsImpl
unfolding update_at column_of assign
fill_fields i [] s = ok s
fill_fields i (field ∷ fields) s = update_at i (column_of field) s.columns >>= λ columns.
    fill_fields (suc i) fields
      (record s { column_data = assign field.name i s.column_data; columns = columns })

unfoldable pub fill_from : Answers → Option (List Field) → PsImpl → Result (PsImpl × List Call)
unfolding fill_fields
fill_from answers none s = ok (s, result_metadata ∷ [])
fill_from answers (some fields) s =
    fill_fields 0 fields (record s { columns = resize answers.field_count new_column s.columns })
    >>= λ s'. ok (
      s',
      result_metadata
          ∷ bind_result s'.columns
          ∷ (if answers.bind_result_fails then report ∷ [] else []),
    )

-- What follows the test of `columnData.empty()`.
unfoldable pub fill_where_empty : List (Bytes × ℕ) → Answers → PsImpl → Result (PsImpl × List Call)
unfolding fill_from
fill_where_empty [] answers s = fill_from answers answers.metadata s
fill_where_empty (_ ∷ _) answers s = ok (s, [])

-- `fillColumnData`, but for its result, which nothing looks at.
unfoldable pub fill_column_data : Answers → PsImpl → Result (PsImpl × List Call)
unfolding fill_where_empty
fill_column_data answers s =
    if not s.stmt then ok (s, []) else fill_where_empty s.column_data answers s

-- `execute` from `mysql_stmt_execute` on, with the calls before it.
unfoldable pub execute_bound : Answers → List Call → PsImpl → Result (Bool × (PsImpl × List Call))
unfolding read_params fill_column_data
execute_bound answers calls s = read_params answers.param_count s.params >>= λ values.
    (if answers.execute_fails
      then ok (false, (s, calls ++ (execute_statement values ∷ report ∷ [])))
      else if answers.store_result_fails
      then ok (false, (s, calls ++ (execute_statement values ∷ store_result ∷ report ∷ [])))
      else (fill_column_data answers s >>= λ r.
          ok (true, (r.0, calls ++ (execute_statement values ∷ store_result ∷ r.1)))))

-- What follows the test of `paramBindData.empty()`.
unfoldable pub execute_params : Answers → List Param → PsImpl → Result (Bool × (PsImpl × List Call))
unfolding execute_bound
execute_params answers [] s = execute_bound answers [] s
execute_params answers (_ ∷ _) s =
    if answers.bind_param_fails
    then ok (false, (s, bind_param ∷ report ∷ []))
    else execute_bound answers (bind_param ∷ []) s

unfoldable pub execute : Answers → PsImpl → Result (Bool × (PsImpl × List Call))
unfolding execute_params
execute answers s = if not s.stmt then ok (false, (s, [])) else execute_params answers s.params s

-- What `mysql_stmt_fetch` writes into the buffers.
unfoldable pub store_row : List Written → List Column → Result (List Column)
unfolding store
store_row [] columns = ok columns
store_row (written ∷ row) [] = err undefined
store_row (written ∷ row) (column ∷ columns) =
    store written column >>= λ stored. store_row row columns >>= λ rest. ok (stored ∷ rest)

-- The flag says that `mysql_stmt_fetch` returned 0.
unfoldable pub next_result : Bool → List Written → PsImpl → Result (Bool × PsImpl)
unfolding store_row
next_result fetched row s =
    if not s.stmt
    then ok (false, s)
    else (store_row row s.columns >>= λ columns. ok (fetched, record s { columns = columns }))

-- A place of `bindData`.
abbrev pub column_at {ℓ} : {A : Type ℓ} → (Column → Result A) → Option Column → Result A
column_at read none = err undefined
column_at read (some column) = read column

unfoldable pub value_at {ℓ} :
    {A : Type ℓ} → (Column → Result A) → Option ℕ → PsImpl → Result (Option A)
value_at read none s = ok none
value_at read (some i) s = column_at read (get_elem? s.columns i) >>= λ v. ok (some v)

-- `value` of an `int`; `none` is the result `false`.
unfoldable pub value_int : Bytes → PsImpl → Result (Option ℤ)
unfolding value_at find_column read_int
value_int colname s =
    if not s.stmt then ok none else value_at read_int (find_column colname s.column_data) s

-- `value` of a string.
unfoldable pub value_str : Bytes → PsImpl → Result (Option Bytes)
unfolding value_at find_column read_str
value_str colname s =
    if not s.stmt then ok none else value_at read_str (find_column colname s.column_data) s

-- The destructor; nothing deletes the `PSImpl`.
unfoldable pub delete_statement : PsImpl → List Call
delete_statement s = if s.stmt then free_result ∷ close_statement ∷ [] else []
