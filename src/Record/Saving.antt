-- ===== src/Record/Saving.antt =====
-- `serialize` of server/recordserver/src/RecordProcess.cpp: the columns for the values of an entity, and the INSERT statement.
use libbundle.Prelude.{
  Bool, true, false, Option, none, some, [], ◌∷◌, ◌++◌, Bytes, codes, if◌then◌else◌, ◌>>=◌,
}
use libbundle.Tables.{bytes_key, contains_key}
use libbundle.Clib.{signed_text}
use libbundle.Entity.{Value, Values, type_integer, type_float, type_bool, type_string}
use libbundle.Record.Columns.{v2m}
use libbundle.Record.Outside.{Outside}
use libbundle.Record.Store.{
  Store, Streams, comma, command, create_table, empty_streams, load_field, prepare_column, quoted,
  touch_table,
}

module _ {Db Float : Type 0} (outside : Outside Db Float) where
  -- A value in a statement.
  unfoldable pub sql_value : Value Float → Bytes
  sql_value v = elim v.type_of [
    | type_integer ↦ signed_text v.value_integer
    | type_float ↦ outside.sql_text v.value_float
    | type_bool ↦ if v.value_bool then codes "1" else codes "0"
    | type_string ↦ b'\'' ∷ v.value_string ++ b'\'' ∷ []
  ]

  -- The third part: the value goes into the streams.
  unfoldable pub write_value : Bytes → Value Float → Streams → Streams
  unfolding comma sql_value
  write_value name v o = record {
    sql_fields = comma o.sql_fields ++ quoted name;
    sql_insert = comma o.sql_insert ++ sql_value v;
    sql_update = comma o.sql_update ++ (quoted name ++ (b'=' ∷ sql_value v));
  }

  -- The loop of `serialize`; an inner `none` is the return of false.
  unfoldable pub values_loop :
      Bytes → Values Float → Streams → Store Db → Option (Option Streams × Store Db)
  unfolding prepare_column write_value v2m
  values_loop table [] o st = some (some o, st)
  values_loop table ((name, v) ∷ m) o st = do
    (rc, st') ← prepare_column outside table name (v2m v) st
    let rest = values_loop table m (write_value name v o) st' in
        if rc then rest else some (none, st')

  unfoldable pub insert_text : Bytes → Streams → Bytes
  insert_text table o =
      codes "INSERT INTO "
      ++ (quoted table
          ++ (codes " ("
              ++ (o.sql_fields
                  ++ (codes ") VALUES ("
                      ++ (o.sql_insert ++ (codes ") ON DUPLICATE KEY UPDATE " ++ o.sql_update))))))

  -- The table, created and loaded where it is not known.
  unfoldable pub prepare_table : Bytes → Values Float → Store Db → Option (Bool × Store Db)
  unfolding contains_key create_table load_field
  prepare_table table m st =
      if contains_key st.tables table
      then some (true, st)
      else (let (rc, st') = create_table outside table m st in
          if rc then load_field outside table st' else some (false, st'))

  -- The statement, where the values could be written.
  unfoldable pub send_insert : Bytes → Option Streams → Store Db → Bool × Store Db
  unfolding insert_text
  send_insert table none st = (false, st)
  send_insert table (some o) st = command outside (insert_text table o) st

  -- The rest of `serialize`, with a known table.
  unfoldable pub send_values : Bytes → Values Float → Store Db → Option (Bool × Store Db)
  unfolding values_loop send_insert
  send_values table m st = do
    (written, st') ← values_loop table m empty_streams st
    some (send_insert table written st')

  unfoldable pub serialize : Bytes → Values Float → Store Db → Option (Bool × Store Db)
  unfolding prepare_table send_values
  serialize table m st = do
    (rc, st') ← prepare_table table m st
    if rc then send_values table m (touch_table st' table) else some (false, st')
