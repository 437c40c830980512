-- ===== src/Record/Loading.antt =====
-- `unserialize` of server/recordserver/src/RecordProcess.cpp: an entity from the first row of a result.
use libbundle.Prelude.{ℕ, Option, none, some, List, [], ◌∷◌, Bytes, if◌then◌else◌, ◌>>=◌}
use libbundle.Tables.{bytes_key, contains_key, or_fresh, is_present}
use libbundle.Entity.{Values, Entity, assign, touch}
use libbundle.Record.Columns.{m2value, is_unsigned_flag}
use libbundle.Record.Outside.{Field, QueryResult, Outside}
use libbundle.Record.Store.{Columns, Store, change_columns, columns_of, select_object, touch_table}

module _ {Db Float : Type 0} (outside : Outside Db Float) where
  -- What one field of a row does to the values: nothing where the column or its type is not known.
  unfoldable pub read_text : Columns → Field → Bytes → Values Float → Option (Values Float)
  unfolding contains_key m2value touch assign
  read_text columns f s m =
      if contains_key columns f.org_name
      then elim (m2value outside.stof f.type_of (is_unsigned_flag f.flags) s) [
        | none ↦ none
        | some none ↦ some (touch m f.org_name)
        | some (some set) ↦ some (assign m f.org_name set)
      ]
      else none

  -- A NULL may stand only where the field is not read.
  unfoldable pub read_field : Columns → Field → Option Bytes → Values Float → Option (Values Float)
  unfolding read_text
  read_field columns f none m = if is_present (read_text columns f [] m) then none else some m
  read_field columns f (some s) m = some (or_fresh (read_text columns f s m) m)

  -- The loop of `unserialize`.
  unfoldable pub read_row :
      Columns → List Field → List (Option Bytes) → Values Float → Option (Values Float)
  unfolding read_field
  read_row columns [] row m = some m
  read_row columns (f ∷ fs) [] m = none
  read_row columns (f ∷ fs) (cell ∷ row) m = do
    m' ← read_field columns f cell m
    read_row columns fs row m'

  -- The entity of the first row, if there is one.
  unfoldable pub first_row :
      Columns → ℕ → List Field → List (List (Option Bytes)) → Option (Option (Entity Float))
  unfolding read_row
  first_row columns objectid fs [] = some none
  first_row columns objectid fs (row ∷ rows) = do
    m ← read_row columns fs row []
    some (some (record { id = objectid; values = m }))

  -- The entity of a result; a null pointer has none.
  unfoldable pub entity_of : Columns → ℕ → Option QueryResult → Option (Option (Entity Float))
  unfolding first_row
  entity_of columns objectid none = some none
  entity_of columns objectid (some result) = first_row columns objectid result.fields result.rows

  -- `unserialize`; an inner `none` is the null pointer.
  unfoldable pub unserialize : Bytes → ℕ → Store Db → Option (Option (Entity Float) × Store Db)
  unfolding change_columns columns_of entity_of
  unserialize table objectid st =
      let st1 = touch_table st table in
      let (answer, db) = outside.run_query (select_object table objectid) st1.db in
      do e ← entity_of (columns_of st1 table) objectid answer; some (e, record st1 { db = db })
