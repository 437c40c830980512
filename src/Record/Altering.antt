-- ===== src/Record/Altering.antt =====
-- `removeEntity` and `alterTable` of server/recordserver/src/RecordProcess.cpp.
use libbundle.Prelude.{ℕ, Bool, true, false, List, [], ◌∷◌, ◌++◌, Bytes, codes, if◌then◌else◌}
use libbundle.Tables.{bytes_key, bytes_eq, contains_key}
use libbundle.Clib.{c_str, unsigned_text}
use libbundle.Entity.Json.{JsonValue, text, Document, parse_error, no_object, members}
use libbundle.Record.Outside.{Outside}
use libbundle.Record.Store.{
  Store, add_key, change_columns, columns_of, command, drop_key, quoted, remove_field, touch_table,
}

module _ {Db Float : Type 0} (outside : Outside Db Float) where
  unfoldable pub remove_entity : Bytes → ℕ → Store Db → Bool × Store Db
  remove_entity table objectid st =
      command outside
        (codes "DELETE FROM TABLE "
          ++ (quoted table ++ (codes " WHERE id = " ++ unsigned_text objectid)))
        st

  -- The loop of `alterTable`, which ignores what the commands return.
  unfoldable pub alter_members : Bytes → List (Bytes × JsonValue Float) → Store Db → Bool × Store Db
  unfolding contains_key columns_of bytes_eq add_key drop_key remove_field
  alter_members table [] st = (true, st)
  alter_members table ((name, text s) ∷ ms) st =
      let field = c_str name in
      let added = alter_members table ms (add_key outside table field st).1 in
      let dropped = alter_members table ms (drop_key outside table field st).1 in
      let removed = alter_members table ms (remove_field outside table field st).1 in
      if contains_key (columns_of st table) field
      then (if bytes_eq (c_str s) (codes "ADD_KEY")
          then added
          else if bytes_eq (c_str s) (codes "DROP_KEY")
          then dropped
          else if bytes_eq (c_str s) (codes "DROP_FIELD")
          then removed
          else (false, st))
      else (false, st)
  alter_members table ((name, value) ∷ ms) st = (false, st)

  unfoldable pub alter_table : Bytes → Document Float → Store Db → Bool × Store Db
  unfolding alter_members change_columns
  alter_table table parse_error st = (false, st)
  alter_table table no_object st = (false, st)
  alter_table table (members ms) st = alter_members table ms (touch_table st table)
