-- ===== src/Record/Total.antt =====
-- The slots of server/recordserver/src/RecordProcess.cpp fail no assertion while the database answers: the statements
-- of `Store` return.
use libbundle.Prelude.{
  subst, ℕ, ◌≡◌, refl, sym, Bool, true, false, Option, none, some, List, [], ◌∷◌, Bytes,
  if◌then◌else◌, ◌>>=◌, Option-cases, inl, inr, All,
}
use libbundle.Tables.{bytes_key, value_at, write_at, or_fresh}
use libbundle.Entity.{Values}
use libbundle.Record.Columns.{FieldType, m2m, v2m}
use libbundle.Record.Outside.{Field, QueryResult, Outside}
use libbundle.Record.Store.{
  Store, Columns, Streams, columns_of, change_columns, touch_table, load_field, add_field,
  alter_field, add_missing, modify, prepare_column, create_table, empty_streams, select_one,
  blank_descriptor, select_object,
}
use libbundle.Record.Saving.{values_loop, prepare_table, send_values, serialize, write_value}
use libbundle.Record.Loading.{read_text, read_field, read_row, unserialize, first_row, entity_of}

-- The code gets to its end.
abbrev pub Returns : {A : Type 0} → Option A → Type 0
Returns {A} o = (a : A) × (o ≡ some a)

pub returned : {A : Type 0} (a : A) → Returns (some a)
returned a = (a, refl)

pub Returns-bind :
    {A B : Type 0} (o : Option A) (f : A → Option B)
    → Returns o
    → ((a : A) → Returns (f a))
    → Returns (o >>= f)
Returns-bind o f (a, e) h = subst (λ p. Returns (p >>= f)) (sym e) (h a)

pub Returns-if :
    {A : Type 0} (b : Bool) (x y : Option A) → Returns x → Returns y → Returns (if b then x else y)
Returns-if true x y h k = h
Returns-if false x y h k = k

-- A row has a value for each field.
abbrev pub IsFull : List Field → List (Option Bytes) → Type 0
IsFull [] row = Unit
IsFull (f ∷ fs) [] = ⊥
IsFull (f ∷ fs) (none ∷ row) = ⊥
IsFull (f ∷ fs) (some s ∷ row) = IsFull fs row

-- The database answers every query, and no value is NULL.
abbrev pub IsAnswering : {Db Float : Type 0} → Outside Db Float → Type 0
IsAnswering {Db} outside =
    (sql : Bytes) (db : Db)
    → (r : QueryResult) × ((outside.run_query sql db).0 ≡ some r) × All (IsFull r.fields) r.rows

module _ {Db Float : Type 0} (outside : Outside Db Float) (answers : IsAnswering outside) where
  load_field-Returns : (table : Bytes) (st : Store Db) → Returns (load_field outside table st)
  unfolding load_field
  load_field-Returns table st =
      let (r, e, full) = answers (select_one table) st.db in rw e (returned _)

  -- The load of the columns behind a command.
  reload-Returns :
      (table : Bytes) (st : Store Db)
      → Returns {A = Bool × Store Db} (do (_, st') ← load_field outside table st; some (true, st'))
  reload-Returns table st = let (p, e) = load_field-Returns table st in rw e (returned _)

  add_missing-Returns :
      (table name : Bytes) (t : FieldType) (st : Store Db)
      → Returns (add_missing outside table name t st)
  unfolding add_missing
  add_missing-Returns table name t st =
      Returns-if _ _ _ (returned _)
        (Returns-if _ _ _ (reload-Returns table (add_field outside table name t st).1) (returned _))

  modify-Returns :
      (table name : Bytes) (t : FieldType) (st : Store Db)
      → Returns (modify outside table name t st)
  unfolding modify
  modify-Returns table name t st =
      let st1 = change_columns st table (λ c. write_at c name blank_descriptor (λ d. d)) in
      let d = or_fresh (value_at (columns_of st1 table) name) blank_descriptor in
      elim (Option-cases (m2m d.type_of t)) [
        | inl e ↦ rw (e, modify) (returned _)
        | inr (false, e) ↦ rw (e, modify) (returned _)
        | inr (true, e) ↦
            rw (e, modify)
              (Returns-if _ _ _ (reload-Returns table (alter_field outside table name t st1).1)
                (returned _))
      ]

  pub prepare_column-Returns :
      (table name : Bytes) (t : FieldType) (st : Store Db)
      → Returns (prepare_column outside table name t st)
  unfolding prepare_column
  prepare_column-Returns table name t st =
      Returns-bind _ _ (add_missing-Returns table name t st)
        (λ p. Returns-if p.0 _ _ (modify-Returns table name t p.1) (returned _))

  values_loop-Returns :
      (table : Bytes) (m : Values Float) (o : Streams) (st : Store Db)
      → Returns (values_loop outside table m o st)
  unfolding values_loop
  values_loop-Returns table [] o st = returned _
  values_loop-Returns table ((name, v) ∷ m) o st =
      Returns-bind _ _ (prepare_column-Returns table name (v2m v) st) (λ p.
        Returns-if p.0 _ _ (values_loop-Returns table m (write_value outside name v o) p.1)
          (returned _))

  send_values-Returns :
      (table : Bytes) (m : Values Float) (st : Store Db) → Returns (send_values outside table m st)
  unfolding send_values
  send_values-Returns table m st =
      Returns-bind _ _ (values_loop-Returns table m empty_streams st) (λ p. returned _)

  prepare_table-Returns :
      (table : Bytes) (m : Values Float) (st : Store Db)
      → Returns (prepare_table outside table m st)
  unfolding prepare_table
  prepare_table-Returns table m st =
      Returns-if _ _ _ (returned _) (
        Returns-if _ _ _ (load_field-Returns table (create_table outside table m st).1)
          (returned _))

  pub serialize-Returns :
      (table : Bytes) (m : Values Float) (st : Store Db) → Returns (serialize outside table m st)
  unfolding serialize
  serialize-Returns table m st =
      Returns-bind _ _ (prepare_table-Returns table m st)
        (λ p. Returns-if p.0 _ _ (send_values-Returns table m (touch_table p.1 table)) (returned _))

  read_row-Returns :
      (columns : Columns) (fs : List Field) (row : List (Option Bytes)) (m : Values Float)
      → IsFull fs row
      → Returns (read_row outside columns fs row m)
  unfolding read_row read_field
  read_row-Returns columns [] row m full = returned _
  read_row-Returns columns (f ∷ fs) [] m full = elim full [ ]
  read_row-Returns columns (f ∷ fs) (none ∷ row) m full = elim full [ ]
  read_row-Returns columns (f ∷ fs) (some s ∷ row) m full =
      read_row-Returns columns fs row (or_fresh (read_text outside columns f s m) m) full

  first_row-Returns :
      (columns : Columns) (objectid : ℕ) (fs : List Field) (rows : List (List (Option Bytes)))
      → All (IsFull fs) rows
      → Returns (first_row outside columns objectid fs rows)
  unfolding first_row
  first_row-Returns columns objectid fs [] full = returned _
  first_row-Returns columns objectid fs (row ∷ rows) full =
      Returns-bind _ _ (read_row-Returns columns fs row [] full.0) (λ m. returned _)

  pub unserialize-Returns :
      (table : Bytes) (objectid : ℕ) (st : Store Db)
      → Returns (unserialize outside table objectid st)
  unfolding unserialize
  unserialize-Returns table objectid st =
      let st1 = touch_table st table in
      let (r, e, full) = answers (select_object table objectid) st.db in
      Returns-bind _ _
        (subst (λ o. Returns (entity_of outside (columns_of st1 table) objectid o)) (sym e)
          (unfold entity_of in
            first_row-Returns (columns_of st1 table) objectid r.fields r.rows full))
        (λ m. returned _)
