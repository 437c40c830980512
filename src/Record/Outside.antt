-- ===== src/Record/Outside.antt =====
-- What server/recordserver/src/RecordProcess.cpp uses of other code: the connection to MySQL, the parser of JSON,
-- and floating point numbers with their texts.
use libbundle.Prelude.{ℕ, Bool, Option, List, Bytes}
use libbundle.Entity.Json.{Document}
use libbundle.Record.Columns.{FieldType}

-- `MYSQL_FIELD`, as far as it is read.
pub record Field : Type 0 where
  pub org_name : Bytes
  pub type_of : FieldType
  pub flags : ℕ
  pub length_of : ℕ

-- `MySQLResult`: the fields, and the rows; a value that is NULL is `none`.
pub record QueryResult : Type 0 where
  pub fields : List Field
  pub rows : List (List (Option Bytes))

-- `run_command` and `run_query` are those of `MySQL`, over the state of the database. `sql_text` is how a stream
-- writes a float, `json_text` how it does with two decimal places, `stof` is `std::stof`.
pub record Outside (Db : Type 0) (Float : Type 0) : Type 0 where
  pub run_command : Bytes → Db → Bool × Db
  pub run_query : Bytes → Db → Option QueryResult × Db
  pub parse_json : Bytes → Document Float
  pub sql_text : Option Float → Bytes
  pub json_text : Option Float → Bytes
  pub stof : Bytes → Option Float
