-- ===== src/Record/Statement.antt =====
-- The INSERT statement of `serialize` in server/recordserver/src/RecordProcess.cpp: the three lists with their commas.
use libbundle.Prelude.{
  ◌≡◌, Bool, true, false, if◌then◌else◌, ◌>>=◌, Option, some, List, [], ◌∷◌, ◌++◌, Bytes, map,
}
use libbundle.Entity.{Value, Values}
use libbundle.Record.Columns.{v2m, m2m}
use libbundle.Tables.{bytes_key, value_at, write_at}
use libbundle.Record.Outside.{Outside}
use libbundle.Record.Store.{
  Store, Streams, FieldDescriptor, blank_descriptor, columns_of, change_columns, comma, quoted,
  prepare_column,
}
use libbundle.Record.Saving.{sql_value}

abbrev pub NonEmpty : Bytes → Type 0
NonEmpty [] = ⊥
NonEmpty (c ∷ s) = Unit

-- The texts with commas between them.
abbrev pub joined : List Bytes → Bytes
joined [] = []
joined (t ∷ []) = t
joined (t ∷ u ∷ ts) = t ++ (b',' ∷ joined (u ∷ ts))

append_all : List Bytes → Bytes → Bytes
append_all [] o = o
append_all (t ∷ ts) o = append_all ts (comma o ++ t)

commas : List Bytes → Bytes
commas [] = []
commas (t ∷ ts) = b',' ∷ (t ++ commas ts)

module _ {Db Float : Type 0} (outside : Outside Db Float) where
  -- The texts of the three lists.
  abbrev pub names_of : Values Float → List Bytes
  names_of = map (λ p. quoted p.0)

  abbrev pub values_of : Values Float → List Bytes
  values_of = map (λ p. sql_value outside p.1)

  abbrev pub updates_of : Values Float → List Bytes
  updates_of = map (λ p. quoted p.0 ++ (b'=' ∷ sql_value outside p.1))

  streams_behind : Values Float → Streams → Streams
  streams_behind m o = record {
    sql_fields = append_all (names_of m) o.sql_fields;
    sql_insert = append_all (values_of m) o.sql_insert;
    sql_update = append_all (updates_of m) o.sql_update;
  }

  -- The columns for some values, one after the other, up to the first one that cannot be added or changed: whether there is
  -- none such, and the store behind the last of these calls.
  abbrev pub all_columns : Bytes → Values Float → Store Db → Option (Bool × Store Db)
  all_columns table [] st = some (true, st)
  all_columns table ((name, v) ∷ m) st = do
    (ready, st') ← prepare_column outside table name (v2m v) st
    if ready then all_columns table m st' else some (false, st')

  -- The column of a name is there, with a type that need not be changed for the value.
  abbrev pub Fits : Bytes → Store Db → Bytes × Value Float → Type 0
  Fits table st (name, v) =
      (d : FieldDescriptor) × (value_at (columns_of st table) name ≡ some d)
      × (m2m d.type_of (v2m v) ≡ some false)

  -- The columns after a round for a column that fits.
  abbrev touched : Bytes → Bytes → Store Db → Store Db
  touched table name st = change_columns st table (λ c. write_at c name blank_descriptor (λ d. d))
