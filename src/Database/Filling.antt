-- ===== src/Database/Filling.antt =====
-- What `fillColumnData` makes of the fields of a result, and where the values of a row stand.
use mathlib.Core.List.{List, map}
use netframework.Base.{
  ℕ, zero, suc, ◌+◌, ◌-◌, Bool, true, not, Option, some, [], ◌∷◌, ◌++◌, append_assoc, if◌then◌else◌,
  length, length-append, replicate, length-replicate, get_elem?, All, Bytes, Result, ok, ◌>>=◌,
  >>=-ok, ◌≡◌, ◌≢◌, refl, ◌∙◌, sym, ap, arith,
}
use netframework.Database.Column.{
  Field, Column, Written, new_column, column_of, store, assign, find_column,
}
use netframework.Database.Statement.{
  PsImpl, Answers, result_metadata, bind_result, report, update_at, resize, fill_fields, fill_from,
  fill_where_empty, fill_column_data, store_row, value_at,
}
use netframework.Database.Names.{assign_all, find-assign_all}

-- The column that the loop makes of a field, whatever was there.
abbrev pub fresh_column : Field → Column
fresh_column field = column_of field new_column

update_at-append :
    (done : List Column) (old : Column) (rest : List Column) (field : Field)
    → update_at (length done) (column_of field) (done ++ (old ∷ rest))
      ≡ ok (done ++ (fresh_column field ∷ rest))
unfolding update_at column_of
update_at-append [] old rest field = refl
update_at-append (x ∷ done) old rest field = rw (update_at-append done old rest field) refl

fill_fields-append :
    (fields : List Field) (done rest : List Column) (s : PsImpl)
    → length rest ≡ length fields
    → fill_fields (length done) fields (record s { columns = done ++ rest })
      ≡ ok (record s {
        column_data = assign_all (length done) fields s.column_data;
        columns = done ++ map fresh_column fields;
      })
unfolding fill_fields assign_all
fill_fields-append [] done [] s same = refl
fill_fields-append [] done (old ∷ rest) s same = absurd (omega (arith, same))
fill_fields-append (field ∷ fields) done [] s same = absurd (omega (arith, same))
fill_fields-append (field ∷ fields) done (old ∷ rest) s same =
    let column = fresh_column field in
    let next : suc (length done) ≡ length (done ++ (column ∷ [])) =
      omega (arith, length-append done (column ∷ [])) in
    let split : done ++ (column ∷ rest) ≡ (done ++ (column ∷ [])) ++ rest =
      sym (append_assoc done (column ∷ []) rest) in
    let named = assign field.name (length done) s.column_data in
    let later =
      fill_fields-append fields (done ++ (column ∷ [])) rest (record s { column_data = named })
        (omega (arith, same)) in
    rw (update_at-append done old rest field, next, split)
      (later
        ∙ ap
            (λ (columns : List Column). ok (record s {
              column_data = assign_all (length (done ++ (column ∷ []))) fields named;
              columns = columns;
            }))
            (append_assoc done (column ∷ []) (map fresh_column fields)))

resize_none : (n : ℕ) → resize n new_column [] ≡ replicate n new_column
resize_none zero = refl
resize_none (suc n) =
    let same : suc n - 0 ≡ suc n = omega arith in ap (λ (m : ℕ). replicate m new_column) same

-- What `fillColumnData` makes of a statement that has had no result yet.
abbrev pub filled : List Field → PsImpl → PsImpl
filled fields s = record s {
  column_data = assign_all 0 fields [];
  columns = map fresh_column fields;
}

fill_from-filled :
    (answers : Answers) (fields : List Field) (s : PsImpl)
    → s.column_data ≡ []
    → s.columns ≡ []
    → answers.field_count ≡ length fields
    → fill_from answers (some fields) s
      ≡ ok (
        filled fields s,
        result_metadata
            ∷ bind_result (map fresh_column fields)
            ∷ (if answers.bind_result_fails then report ∷ [] else []),
      )
unfolding fill_from
fill_from-filled answers fields s unnamed empty count =
    let resized : resize answers.field_count new_column s.columns
        ≡ replicate (length fields) new_column =
      ap (resize answers.field_count new_column) empty
      ∙ resize_none answers.field_count
      ∙ ap (λ (m : ℕ). replicate m new_column) count in
    let looped : fill_fields 0 fields
          (record s { columns = resize answers.field_count new_column s.columns })
        ≡ ok (filled fields s) =
      ap (λ (columns : List Column). fill_fields 0 fields (record s { columns = columns })) resized
      ∙ fill_fields-append fields [] (replicate (length fields) new_column) s
          (length-replicate (length fields) new_column)
      ∙ ap
          (λ (names : List (Bytes × ℕ)). ok (record s {
            column_data = assign_all 0 fields names;
            columns = map fresh_column fields;
          }))
          unnamed in
    rw looped refl

pub fill_column_data-filled :
    (answers : Answers) (fields : List Field) (s : PsImpl)
    → s.stmt ≡ true
    → s.column_data ≡ []
    → s.columns ≡ []
    → answers.metadata ≡ some fields
    → answers.field_count ≡ length fields
    → fill_column_data answers s
      ≡ ok (
        filled fields s,
        result_metadata
            ∷ bind_result (map fresh_column fields)
            ∷ (if answers.bind_result_fails then report ∷ [] else []),
      )
unfolding fill_column_data fill_where_empty
fill_column_data-filled answers fields s ready unnamed empty described count =
    ap (λ (go : Bool). if not go then ok (s, []) else fill_where_empty s.column_data answers s)
      ready
    ∙ ap (λ (names : List (Bytes × ℕ)). fill_where_empty names answers s) unnamed
    ∙ ap (λ (res : Option (List Field)). fill_from answers res s) described
    ∙ fill_from-filled answers fields s unnamed empty count

-- The element of a list at the end of its first part.
get_elem?-append :
    (before : List Column) (column : Column) (after : List Column)
    → get_elem? (before ++ (column ∷ after)) (length before) ≡ some column
get_elem?-append [] column after = refl
get_elem?-append (first ∷ before) column after = get_elem?-append before column after

-- A row that the library can write gives each column its own value.
pub store_row-at :
    (pre : List Written) (written : Written) (post : List Written) (columns : List Column) (i : ℕ)
    (column stored : Column) (row : List Column)
    → length pre ≡ i
    → get_elem? columns i ≡ some column
    → store written column ≡ ok stored
    → store_row (pre ++ (written ∷ post)) columns ≡ ok row
    → get_elem? row i ≡ some stored
unfolding store_row
store_row-at pre written post [] i column stored row place here writes rows = absurd (cc here)
store_row-at [] written post (c ∷ columns) zero column stored row place here writes rows =
    let (first, e, rest) = >>=-ok (store written c) _ row rows in
    let (others, f, whole) = >>=-ok (store_row post columns) _ row rest in
    let parts : row ≡ first ∷ others = cc in
    let own : c ≡ column = cc in
    let same : first ≡ stored = cc in ap (λ (cs : List Column). get_elem? cs 0) parts ∙ ap some same
store_row-at [] written post (c ∷ columns) (suc i) column stored row place here writes rows =
    absurd (omega (arith, place))
store_row-at (w ∷ pre) written post (c ∷ columns) zero column stored row place here writes rows =
    absurd (omega (arith, place))
store_row-at (w ∷ pre) written post (c ∷ columns) (suc i) column stored row place here writes rows =
    let (first, e, rest) = >>=-ok (store w c) _ row rows in
    let (others, f, whole) = >>=-ok (store_row (pre ++ (written ∷ post)) columns) _ row rest in
    let later =
      store_row-at pre written post columns i column stored others (omega (arith, place)) here
        writes f in
    let parts : row ≡ first ∷ others = cc in
    ap (λ (cs : List Column). get_elem? cs (suc i)) parts ∙ later

get_elem?-map :
    (before : List Field) (field : Field) (after : List Field)
    → get_elem? (map fresh_column (before ++ (field ∷ after))) (length before)
      ≡ some (fresh_column field)
get_elem?-map [] field after = refl
get_elem?-map (first ∷ before) field after = get_elem?-map before field after

-- What a name reads after a fetch.
pub value_at-fetched :
    {A : Type 0} (read : Column → Result A) (before after : List Field) (field : Field)
    (pre post : List Written) (written : Written) (stored : Column) (row : List Column) (s : PsImpl)
    → All (λ (other : Field). other.name ≢ field.name) after
    → length pre ≡ length before
    → store written (fresh_column field) ≡ ok stored
    → store_row (pre ++ (written ∷ post)) (map fresh_column (before ++ (field ∷ after))) ≡ ok row
    → value_at read
        (find_column field.name (assign_all 0 (before ++ (field ∷ after)) []))
        (record s { columns = row })
      ≡ (read stored >>= λ v. ok (some v))
unfolding value_at
value_at-fetched read before after field pre post written stored row s apart place writes rows =
    let found = find-assign_all 0 before field after [] apart in
    let zero_on : 0 + length before ≡ length before = omega arith in
    let here =
      store_row-at pre written post (map fresh_column (before ++ (field ∷ after))) (length before)
        (fresh_column field) stored row place (get_elem?-map before field after) writes rows in
    rw (found, zero_on, here) refl
