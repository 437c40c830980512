-- ===== src/Record/Forgotten.antt =====
-- A table that was asked for before it exists: `unserialize` of server/recordserver/src/RecordProcess.cpp writes an empty entry
-- for it, and `serialize` then takes it for one that was created.
use libbundle.Prelude.{
  ℕ, ◌≡◌, ◌∙◌, ap, refl, Bool, true, false, none, some, [], ◌∷◌, Bytes, ◌>>=◌, if◌then◌else◌, arith,
  Option-cases, inl, inr,
}
use libbundle.Tables.{
  bytes_key, value_at, contains_key, or_fresh, is_present, value_at-write_at, same_refl,
}
use libbundle.Entity.{Value, Values}
use libbundle.Record.Columns.{m2string, v2m}
use libbundle.Record.Outside.{Outside}
use libbundle.Record.Store.{
  Store, columns_of, change_columns, touch_table, add_field, field_command, alter_text, add_missing,
  prepare_column, select_object,
}
use libbundle.Record.Saving.{values_loop, prepare_table, send_values, send_insert, serialize}
use libbundle.Record.Loading.{unserialize, entity_of}

module _ {Db : Type 0} where
  -- The table has an entry without columns.
  abbrev IsBlank : Store Db → Bytes → Type 0
  IsBlank st table = value_at st.tables table ≡ some []

  touched-IsBlank :
      (st : Store Db) (table : Bytes)
      → or_fresh (value_at st.tables table) [] ≡ []
      → IsBlank (touch_table st table) table
  unfolding change_columns
  touched-IsBlank st table e =
      value_at-write_at st.tables table table [] (λ c. c) ∙ rw (same_refl table) (ap some e)

v2m_present : {Float : Type 0} (v : Value Float) → is_present (m2string (v2m v)) ≡ true
unfolding m2string v2m
v2m_present v = ground arith

m2string-v2m : {Float : Type 0} (v : Value Float) → (s : Bytes) × (m2string (v2m v) ≡ some s)
m2string-v2m v = elim (Option-cases (m2string (v2m v))) [
  | inl e ↦ absurd (cc (v2m_present v, ap is_present e))
  | inr (s, e) ↦ (s, e)
]

if_false : {A : Type 0} (b : Bool) (x y : A) → b ≡ false → (if b then x else y) ≡ y
if_false b x y e = rw e refl

module _ {Db Float : Type 0} (outside : Outside Db Float) (table : Bytes) where
  -- The database refuses to alter the table.
  abbrev pub Refuses : Db → Type 0
  Refuses db = (what : Bytes) → (outside.run_command (alter_text table what) db).0 ≡ false

  add_field_refused :
      (name : Bytes) (v : Value Float) (st : Store Db)
      → Refuses st.db
      → (add_field outside table name (v2m v) st).0 ≡ false
  unfolding add_field field_command
  add_field_refused name v st refused =
      let (s, e) = m2string-v2m v in rw (add_field, field_command, e) (refused _)

  add_missing-blank :
      (name : Bytes) (v : Value Float) (st : Store Db)
      → IsBlank st table
      → Refuses st.db
      → (st' : Store Db) × (add_missing outside table name (v2m v) st ≡ some (false, st'))
  unfolding add_missing columns_of contains_key value_at
  add_missing-blank name v st blank refused =
      let absent : contains_key (columns_of st table) name ≡ false =
        ap (λ o. contains_key (or_fresh o []) name) blank in
      (
        (add_field outside table name (v2m v) st).1,
        if_false (contains_key (columns_of st table) name) _ _ absent
            ∙ if_false (add_field outside table name (v2m v) st).0 _ _
                (add_field_refused name v st refused),
      )

  send_values-blank :
      (name : Bytes) (v : Value Float) (m : Values Float) (st : Store Db)
      → IsBlank st table
      → Refuses st.db
      → (st' : Store Db) × (send_values outside table ((name, v) ∷ m) st ≡ some (false, st'))
  unfolding send_values values_loop prepare_column send_insert
  send_values-blank name v m st blank refused =
      let (st', e) = add_missing-blank name v st blank refused in
      (st', rw (send_values, values_loop, prepare_column, e) refl)

  prepare_table-blank :
      (m : Values Float) (st : Store Db)
      → IsBlank st table
      → prepare_table outside table m st ≡ some (true, st)
  unfolding prepare_table contains_key
  prepare_table-blank m st blank = rw (prepare_table, contains_key, blank) refl

  serialize-blank :
      (name : Bytes) (v : Value Float) (m : Values Float) (st : Store Db)
      → IsBlank st table
      → Refuses st.db
      → (st' : Store Db) × (serialize outside table ((name, v) ∷ m) st ≡ some (false, st'))
  unfolding serialize change_columns
  serialize-blank name v m st blank refused =
      let (st', e) =
        send_values-blank name v m (touch_table st table)
          (touched-IsBlank st table (ap (λ o. or_fresh o []) blank)) refused in
      (st', rw (serialize, prepare_table-blank ((name, v) ∷ m) st blank, e) refl)

  -- A table that a slot does not know, and that the database does not have either, so that it answers the query for an
  -- object with an error and refuses to alter the table: after an unserialize request for the table, which finds nothing,
  -- every serialize request with at least one value fails, since the slot does not ask the database to create the table.
  pub serialize-unserialize_unknown :
      (objectid : ℕ) (name : Bytes) (v : Value Float) (m : Values Float) (st : Store Db) (db : Db)
      → value_at st.tables table ≡ none
      → outside.run_query (select_object table objectid) st.db ≡ (none, db)
      → Refuses db
      → (st' : Store Db) × (unserialize outside table objectid st ≡ some (none, st'))
        × ((serialize outside table ((name, v) ∷ m) st' >>= λ p. some p.0) ≡ some false)
  unfolding unserialize entity_of change_columns
  serialize-unserialize_unknown objectid name v m st db unknown missing refused =
      let st' = record (touch_table st table) { db = db } in
      let (st'', e) =
        serialize-blank name v m st' (touched-IsBlank st table (ap (λ o. or_fresh o []) unknown))
          refused in
      (st', rw (unserialize, missing, entity_of) refl, ap (λ o. o >>= λ p. some p.0) e)
