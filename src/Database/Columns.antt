-- ===== src/Database/Columns.antt =====
-- What is read of the columns of the first result of a statement: numbers and texts.
use mathlib.Core.List.{List, map}
use netframework.Base.{
  ℕ, ◌+◌, ◌-◌, ◌≤◌, ◌%◌, ◌^◌, ltb, leb, ◌==◌, Bool, true, false, not, ◌⊎◌, inl, inr, none, some, [],
  ◌∷◌, ◌++◌, if◌then◌else◌, length, length-append, drop, All, Bytes, ok, ◌>>=◌, ℤ, pos, ◌≡◌, ◌≢◌,
  refl, ◌∙◌, sym, ap, subst, arith,
}
use netframework.Database.Column.{
  Field, FieldType, mysql_type_short, mysql_type_long, mysql_type_string, mysql_type_var_string,
  Storage, shortno, intno, str, Column, Written, short_bits, long_bits, chars, storage_of,
  column_of, store_at, store, signed, read_int_at, read_int, until_zero, read_str_at, read_str,
  find_column,
}
use netframework.Database.Statement.{
  PsImpl, Answers, Call, fill_column_data, store_row, next_result, value_at, value_int, value_str,
}
use netframework.Database.Filling.{fresh_column, filled, fill_column_data-filled, value_at-fetched}

-- How the library writes a number of a column of these types, and how it comes out.
abbrev pub number_bits : FieldType → ℕ → Written
number_bits mysql_type_short v = short_bits v
number_bits _ v = long_bits v

abbrev pub number_read : FieldType → ℕ → ℤ
number_read mysql_type_short v = pos (v % 2 ^ 16)
number_read _ v = signed (v % 2 ^ 32)

-- The statement after a row is fetched.
abbrev pub fetched : List Column → PsImpl → PsImpl
fetched row s = record s { columns = row }

pub next_result-fetched :
    (writes : List Written) (row : List Column) (s : PsImpl)
    → s.stmt ≡ true
    → store_row writes s.columns ≡ ok row
    → next_result true writes s ≡ ok (true, fetched row s)
unfolding next_result
next_result-fetched writes row s ready rows =
    ap
      (λ (go : Bool).
        if not go
        then ok (false, s)
        else (store_row writes s.columns >>= λ columns. ok (true, fetched columns s)))
      ready
    ∙ rw rows refl

pub value_int-value_at :
    (name : Bytes) (s : PsImpl)
    → s.stmt ≡ true
    → value_int name s ≡ value_at read_int (find_column name s.column_data) s
unfolding value_int
value_int-value_at name s ready =
    ap
      (λ (go : Bool).
        if not go then ok none else value_at read_int (find_column name s.column_data) s)
      ready

pub value_str-value_at :
    (name : Bytes) (s : PsImpl)
    → s.stmt ≡ true
    → value_str name s ≡ value_at read_str (find_column name s.column_data) s
unfolding value_str
value_str-value_at name s ready =
    ap
      (λ (go : Bool).
        if not go then ok none else value_at read_str (find_column name s.column_data) s)
      ready

-- Where the library has written a number.
abbrev IsStored : FieldType → ℕ → ℕ → Type 0
IsStored t n v =
    (storage : Storage) × (store_at (number_bits t v) (storage_of t n) ≡ ok storage)
    × (read_int_at storage ≡ ok (number_read t v))

short-IsStored : (n v : ℕ) → IsStored mysql_type_short n v
unfolding store_at storage_of read_int_at signed
short-IsStored n v =
    let bits : 0 - 0 % 2 ^ 16 + v % 2 ^ 16 ≡ v % 2 ^ 16 = omega arith in
    let low : ltb (v % 2 ^ 16) (2 ^ 31) ≡ true = ground arith in
    (shortno (0 - 0 % 2 ^ 16 + v % 2 ^ 16), refl, rw (bits, low) refl)

long-IsStored : (n v : ℕ) → IsStored mysql_type_long n v
unfolding store_at storage_of read_int_at
long-IsStored n v = (intno (v % 2 ^ 32), refl, refl)

IsStored-number :
    (t : FieldType) (n v : ℕ) → (t ≡ mysql_type_short) ⊎ (t ≡ mysql_type_long) → IsStored t n v
IsStored-number t n v (inl short) = subst (λ u. IsStored u n v) (sym short) (short-IsStored n v)
IsStored-number t n v (inr long) = subst (λ u. IsStored u n v) (sym long) (long-IsStored n v)

until_zero-append :
    (text rest : Bytes)
    → All (λ c. (c == 0) ≡ false) text
    → until_zero ((text ++ (0 ∷ [])) ++ rest) ≡ ok text
unfolding until_zero
until_zero-append [] rest good = refl
until_zero-append (c ∷ text) rest good = rw (good.0, until_zero-append text rest good.1) refl

-- Where the library has written a text and its zero byte.
abbrev IsText : FieldType → ℕ → Bytes → Type 0
IsText t n text =
    (storage : Storage) × (store_at (chars (text ++ (0 ∷ []))) (storage_of t n) ≡ ok storage)
    × (read_str_at storage ≡ ok text)

str_stored :
    (n : ℕ) (text : Bytes)
    → length text ≤ n
    → All (λ c. (c == 0) ≡ false) text
    → IsText mysql_type_string n text
unfolding store_at storage_of read_str_at
str_stored n text fits good =
    let bytes = text ++ (0 ∷ []) in
    let inside : leb (length bytes) (n + 1) ≡ true = ground (arith, length-append text (0 ∷ [])) in
    (
      str n (bytes ++ drop (length bytes) []),
      rw inside refl,
      until_zero-append text (drop (length bytes) []) good,
    )

IsText-str :
    (t : FieldType) (n : ℕ) (text : Bytes)
    → (t ≡ mysql_type_string) ⊎ (t ≡ mysql_type_var_string)
    → length text ≤ n
    → All (λ c. (c == 0) ≡ false) text
    → IsText t n text
unfolding storage_of
IsText-str t n text (inl string) fits good =
    subst (λ u. IsText u n text) (sym string) (str_stored n text fits good)
IsText-str t n text (inr string) fits good =
    subst (λ u. IsText u n text) (sym string) (str_stored n text fits good)

module _ (answers : Answers) (before after : List Field) (field : Field) (pre post : List Written)
    (row : List Column) (s : PsImpl) (ready : s.stmt ≡ true) (unnamed : s.column_data ≡ [])
    (empty : s.columns ≡ []) (described : answers.metadata ≡ some (before ++ (field ∷ after)))
    (count : answers.field_count ≡ length (before ++ (field ∷ after)))
    (last : All (λ (other : Field). other.name ≢ field.name) after)
    (place : length pre ≡ length before) where
  -- The first result of a statement, in which a `SHORT` or a `LONG` column has a name that no later
  -- column has, and a row that the library writes inside the buffers: the metadata are taken, the
  -- row is fetched, and the name gives the number that the library wrote, for a `LONG` column with
  -- its sign. For a `SHORT` column the bits above the 16 that the library wrote are zero, so that a
  -- negative number comes out as a positive one.
  pub value_int-next_result :
      (v : ℕ)
      → (field.field_type ≡ mysql_type_short) ⊎ (field.field_type ≡ mysql_type_long)
      → store_row
          (pre ++ (number_bits field.field_type v ∷ post))
          (map fresh_column (before ++ (field ∷ after)))
        ≡ ok row
      → (let s' = filled (before ++ (field ∷ after)) s in
          ((fill_column_data answers s >>= λ r.
          next_result true (pre ++ (number_bits field.field_type v ∷ post)) r.0)
            ≡ ok (true, fetched row s'))
          × (value_int field.name (fetched row s') ≡ ok (some (number_read field.field_type v))))
  unfolding store column_of read_int
  value_int-next_result v number rows =
      let fields = before ++ (field ∷ after) in
      let s' = filled fields s in
      let (storage, writes, reads) = IsStored-number field.field_type field.length v number in
      let stored : Column = record { buffer_type = field.field_type; storage = storage } in
      let wrote : store (number_bits field.field_type v) (fresh_column field) ≡ ok stored =
        rw writes refl in
      let whole =
        value_at-fetched read_int before after field pre post (number_bits field.field_type v)
          stored row s' last place wrote rows in
      (
        ap
              (λ r. r >>= λ (r : PsImpl × List Call).
                next_result true (pre ++ (number_bits field.field_type v ∷ post)) r.0)
              (fill_column_data-filled answers fields s ready unnamed empty described count)
            ∙ next_result-fetched (pre ++ (number_bits field.field_type v ∷ post)) row s' ready
                rows,
        value_int-value_at field.name (fetched row s') ready
            ∙ whole
            ∙ ap (λ r. r >>= λ (n : ℤ). ok (some n)) reads,
      )

  -- The same for a text without a zero byte in a column whose length it does not exceed, where the
  -- library writes it with a zero byte at its end.
  pub value_str-next_result :
      (text : Bytes)
      → (field.field_type ≡ mysql_type_string) ⊎ (field.field_type ≡ mysql_type_var_string)
      → length text ≤ field.length
      → All (λ c. (c == 0) ≡ false) text
      → store_row
          (pre ++ (chars (text ++ (0 ∷ [])) ∷ post))
          (map fresh_column (before ++ (field ∷ after)))
        ≡ ok row
      → (let s' = filled (before ++ (field ∷ after)) s in
          ((fill_column_data answers s >>= λ r.
          next_result true (pre ++ (chars (text ++ (0 ∷ [])) ∷ post)) r.0)
            ≡ ok (true, fetched row s'))
          × (value_str field.name (fetched row s') ≡ ok (some text)))
  unfolding store column_of read_str
  value_str-next_result text string fits good rows =
      let fields = before ++ (field ∷ after) in
      let s' = filled fields s in
      let (storage, writes, reads) =
        IsText-str field.field_type field.length text string fits good in
      let stored : Column = record { buffer_type = field.field_type; storage = storage } in
      let wrote : store (chars (text ++ (0 ∷ []))) (fresh_column field) ≡ ok stored =
        rw writes refl in
      let whole =
        value_at-fetched read_str before after field pre post (chars (text ++ (0 ∷ []))) stored row
          s' last place wrote rows in
      (
        ap
              (λ r. r >>= λ (r : PsImpl × List Call).
                next_result true (pre ++ (chars (text ++ (0 ∷ [])) ∷ post)) r.0)
              (fill_column_data-filled answers fields s ready unnamed empty described count)
            ∙ next_result-fetched (pre ++ (chars (text ++ (0 ∷ [])) ∷ post)) row s' ready rows,
        value_str-value_at field.name (fetched row s') ready
            ∙ whole
            ∙ ap (λ r. r >>= λ (t : Bytes). ok (some t)) reads,
      )
