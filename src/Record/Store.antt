-- ===== src/Record/Store.antt =====
-- The statements that `SlotDatabase` of server/recordserver/src/RecordProcess.cpp sends to its database, and what
-- it keeps about the tables. `none` is a failed assertion.
use libbundle.Prelude.{
  ℕ, Bool, true, false, Option, none, some, List, [], ◌∷◌, ◌++◌, Bytes, codes, if◌then◌else◌, ◌>>=◌,
}
use libbundle.Tables.{bytes_key, bytes_eq, value_at, contains_key, write_at, or_fresh}
use libbundle.Clib.{unsigned_text}
use libbundle.Entity.{Values}
use libbundle.Record.Columns.{FieldType, other_type, m2m, m2string, v2m}
use libbundle.Record.Outside.{Field, QueryResult, Outside}

pub record FieldDescriptor : Type 0 where
  pub type_of : FieldType
  pub flags : ℕ
  pub length_of : ℕ

abbrev pub Columns : Type 0
Columns = List (Bytes × FieldDescriptor)

-- The database and `tables`.
pub record Store (Db : Type 0) : Type 0 where
  pub db : Db
  pub tables : List (Bytes × Columns)

-- What `operator[]` makes for a column that is not there: zeros, and the type with number 0.
abbrev pub blank_descriptor : FieldDescriptor
blank_descriptor = record { type_of = other_type 0; flags = 0; length_of = 0 }

-- A name in back quotes.
abbrev pub quoted : Bytes → Bytes
quoted name = b'`' ∷ name ++ b'`' ∷ []

-- The statement of `loadField`.
abbrev pub select_one : Bytes → Bytes
select_one table = codes "SELECT * FROM " ++ (quoted table ++ codes " LIMIT 1")

-- The statement of `unserialize`.
abbrev pub select_object : Bytes → ℕ → Bytes
select_object table objectid =
    codes "SELECT * FROM " ++ (quoted table ++ (codes " WHERE id = " ++ unsigned_text objectid))

module _ {Db : Type 0} where
  -- `this->tables[table]`, where a table that is not there gets no columns.
  unfoldable pub columns_of : Store Db → Bytes → Columns
  unfolding value_at
  columns_of st table = or_fresh (value_at st.tables table) []

  unfoldable pub change_columns : Store Db → Bytes → (Columns → Columns) → Store Db
  unfolding write_at
  change_columns st table change = record st { tables = write_at st.tables table [] change }

  abbrev pub touch_table : Store Db → Bytes → Store Db
  touch_table st table = change_columns st table (λ c. c)

-- The loop of `loadField` over the fields of the result.
unfoldable pub load_fields : List Field → Columns → Bool × Columns
unfolding m2string write_at
load_fields [] c = (true, c)
load_fields (f ∷ fs) c = elim (m2string f.type_of) [
  | none ↦ (false, c)
  | some name ↦ load_fields fs (
      write_at c f.org_name blank_descriptor
        (λ _. record { type_of = f.type_of; flags = f.flags; length_of = f.length_of }))
]

-- The columns of `createTable`.
unfoldable pub columns_text : {Float : Type 0} → Values Float → Bytes
unfolding bytes_eq v2m m2string
columns_text [] = []
columns_text ((name, v) ∷ m) =
    let rest = columns_text m in
    if bytes_eq name (codes "id") then rest else elim (m2string (v2m v)) [
      | none ↦ rest
      | some type_text ↦
          codes ", " ++ (quoted name ++ (codes " " ++ (type_text ++ (codes " NOT NULL" ++ rest))))
    ]

unfoldable pub create_text : {Float : Type 0} → Bytes → Values Float → Bytes
unfolding columns_text
create_text table m =
    codes "CREATE TABLE "
    ++ (quoted table
        ++ (codes " (`id` BIGINT UNSIGNED NOT NULL PRIMARY KEY "
            ++ (columns_text m ++ codes ") ENGINE=InnoDB DEFAULT CHARSET=utf8")))

-- "ALTER TABLE `table` what".
unfoldable pub alter_text : Bytes → Bytes → Bytes
alter_text table what = codes "ALTER TABLE " ++ (quoted table ++ (codes " " ++ what))

-- The three streams of `serialize`.
pub record Streams : Type 0 where
  pub sql_fields : Bytes
  pub sql_insert : Bytes
  pub sql_update : Bytes

abbrev pub empty_streams : Streams
empty_streams = record { sql_fields = []; sql_insert = []; sql_update = [] }

-- A comma where the stream holds something.
unfoldable pub comma : Bytes → Bytes
comma [] = []
comma (c ∷ s) = (c ∷ s) ++ b',' ∷ []

module _ {Db Float : Type 0} (outside : Outside Db Float) where
  abbrev pub command : Bytes → Store Db → Bool × Store Db
  command sql st = let (rc, db) = outside.run_command sql st.db in (rc, record st { db = db })

  -- `loadField`: what the result changes, and the whole.
  abbrev pub loaded : Bytes → QueryResult → Store Db → Bool × Store Db
  loaded table result st =
      let (rc, columns) = load_fields result.fields (columns_of st table) in
      (rc, change_columns st table (λ _. columns))

  unfoldable pub load_field : Bytes → Store Db → Option (Bool × Store Db)
  unfolding change_columns load_fields columns_of
  load_field table st =
      let (answer, db) = outside.run_query (select_one table) st.db in
      answer >>= λ result. some (loaded table result (record st { db = db }))

  unfoldable pub create_table : Bytes → Values Float → Store Db → Bool × Store Db
  unfolding create_text
  create_table table m st = command (create_text table m) st

  -- `addField` and `alterField`.
  unfoldable pub field_command : Bytes → Bytes → Bytes → FieldType → Store Db → Bool × Store Db
  unfolding alter_text m2string
  field_command verb table name t st = elim (m2string t) [
    | none ↦ (false, st)
    | some type_text ↦
        command
          (alter_text table (
            verb
            ++ (codes " " ++ (quoted name ++ (codes " " ++ (type_text ++ codes " NOT NULL"))))))
          st
  ]

  unfoldable pub add_field : Bytes → Bytes → FieldType → Store Db → Bool × Store Db
  unfolding field_command
  add_field table name t st = field_command (codes "ADD") table name t st

  unfoldable pub alter_field : Bytes → Bytes → FieldType → Store Db → Bool × Store Db
  unfolding field_command
  alter_field table name t st = field_command (codes "MODIFY") table name t st

  unfoldable pub remove_field : Bytes → Bytes → Store Db → Bool × Store Db
  unfolding alter_text
  remove_field table name st =
      command (alter_text table (codes "DROP " ++ (quoted name ++ codes " "))) st

  unfoldable pub add_key : Bytes → Bytes → Store Db → Bool × Store Db
  unfolding alter_text
  add_key table name st =
      command
        (alter_text table
          (codes "ADD KEY " ++ (quoted name ++ (codes "(" ++ (quoted name ++ codes ")")))))
        st

  unfoldable pub drop_key : Bytes → Bytes → Store Db → Bool × Store Db
  unfolding alter_text
  drop_key table name st =
      command (alter_text table (codes "DROP KEY " ++ (quoted name ++ codes " "))) st

  -- The first part of a round of `serialize`: a column that is not there is added.
  unfoldable pub add_missing : Bytes → Bytes → FieldType → Store Db → Option (Bool × Store Db)
  unfolding contains_key columns_of add_field load_field
  add_missing table name t st =
      if contains_key (columns_of st table) name
      then some (true, st)
      else (let (rc, st') = add_field table name t st in
          if rc
          then (do (_, st'') ← load_field table st'; some (true, st''))
          else some (false, st'))

  -- The second part: the column is changed where its type says so.
  unfoldable pub modify : Bytes → Bytes → FieldType → Store Db → Option (Bool × Store Db)
  unfolding change_columns columns_of value_at write_at m2m alter_field load_field
  modify table name t st =
      let st1 = change_columns st table (λ c. write_at c name blank_descriptor (λ d. d)) in
      let d = or_fresh (value_at (columns_of st1 table) name) blank_descriptor in
      elim (m2m d.type_of t) [
        | none ↦ some (false, st1)
        | some false ↦ some (true, st1)
        | some true ↦
            (let (rc, st2) = alter_field table name t st1 in
              if rc
              then (do (_, st3) ← load_field table st2; some (true, st3))
              else some (false, st2))
      ]

  unfoldable pub prepare_column : Bytes → Bytes → FieldType → Store Db → Option (Bool × Store Db)
  unfolding add_missing modify
  prepare_column table name t st = do
    (rc, st') ← add_missing table name t st
    if rc then modify table name t st' else some (false, st')
