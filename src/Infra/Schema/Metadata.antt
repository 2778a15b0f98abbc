-- ===== src/Infra/Schema/Metadata.antt =====
-- The tables that infrastructure/persistence/models.py declares.
use mini_agent_go.Prelude.{Bool, true, false, List, [], ◌∷◌, ◌++◌, map, if◌then◌else◌, Text, codes}
use mini_agent_go.Infra.Schema.{
  SqlType, string, text, date_time, json, integer, boolean, column, SqlTable, SqlIndex,
}

-- A column that a model declares. `nullable` is what SQLAlchemy takes: whether it is given, or the
-- annotation has `None`; a primary key is not nullable.
pub record ModelColumn : Type 0 where
  pub name : Text
  pub type : SqlType
  pub nullable : Bool
  pub primary_key : Bool
  pub index : Bool
  pub unique : Bool

abbrev required : Text → SqlType → ModelColumn
required n t = record {
  name = n;
  type = t;
  nullable = false;
  primary_key = false;
  index = false;
  unique = false;
}

abbrev primary : Text → SqlType → ModelColumn
primary n t = record (required n t) { primary_key = true }

abbrev optional : Text → SqlType → ModelColumn
optional n t = record (required n t) { nullable = true }

abbrev indexed : Text → SqlType → ModelColumn
indexed n t = record (required n t) { index = true }

abbrev unique : Text → SqlType → ModelColumn
unique n t = record (required n t) { index = true; unique = true }

pub record Model : Type 0 where
  pub tablename : Text
  pub columns : List ModelColumn
  -- the indexes that are declared on their own
  pub more : List (Text × SqlIndex)

unfoldable pub source_row : Model
source_row = record {
  tablename = codes "sources";
  columns =
      primary (codes "id") (string 64)
      ∷ required (codes "name") (string 255)
      ∷ indexed (codes "type") (string 32)
      ∷ optional (codes "url") (string 2048)
      ∷ required (codes "config") json
      ∷ required (codes "headers") json
      ∷ required (codes "cron") (string 64)
      ∷ required (codes "priority") integer
      ∷ indexed (codes "status") (string 16)
      ∷ required (codes "parser") (string 64)
      ∷ required (codes "created_at") date_time
      ∷ required (codes "updated_at") date_time
      ∷ [];
  more = [];
}

unfoldable pub program_row : Model
program_row = record {
  tablename = codes "programs";
  columns =
      primary (codes "id") (string 64)
      ∷ indexed (codes "title") (string 512)
      ∷ optional (codes "description") text
      ∷ indexed (codes "channel_id") (string 64)
      ∷ required (codes "channel_name") (string 255)
      ∷ optional (codes "channel_logo") (string 2048)
      ∷ optional (codes "channel_country") (string 8)
      ∷ optional (codes "channel_language") (string 16)
      ∷ indexed (codes "start_at") date_time
      ∷ required (codes "end_at") date_time
      ∷ required (codes "timezone") (string 64)
      ∷ required (codes "tags") json
      ∷ required (codes "source_ids") json
      ∷ unique (codes "identity_key") (string 128)
      ∷ required (codes "version") integer
      ∷ required (codes "created_at") date_time
      ∷ required (codes "updated_at") date_time
      ∷ [];
  more =
      (
        codes "ix_prog_channel_start",
        record {
          table = codes "programs";
          columns = codes "channel_id" ∷ codes "start_at" ∷ [];
          unique = false;
        },
      )
      ∷ [];
}

unfoldable pub job_row : Model
job_row = record {
  tablename = codes "jobs";
  columns =
      primary (codes "id") (string 64)
      ∷ indexed (codes "source_id") (string 64)
      ∷ indexed (codes "status") (string 16)
      ∷ indexed (codes "started_at") date_time
      ∷ optional (codes "finished_at") date_time
      ∷ required (codes "items_fetched") integer
      ∷ required (codes "items_saved") integer
      ∷ optional (codes "error") text
      ∷ optional (codes "trace_id") (string 64)
      ∷ [];
  more = [];
}

unfoldable pub user_row : Model
user_row = record {
  tablename = codes "users";
  columns =
      primary (codes "id") (string 64)
      ∷ unique (codes "username") (string 64)
      ∷ required (codes "password_hash") (string 255)
      ∷ required (codes "role") (string 16)
      ∷ required (codes "created_at") date_time
      ∷ required (codes "disabled") boolean
      ∷ [];
  more = [];
}

unfoldable pub source_health_row : Model
source_health_row = record {
  tablename = codes "source_health";
  columns =
      primary (codes "source_id") (string 64)
      ∷ required (codes "fail_streak") integer
      ∷ optional (codes "last_check_at") date_time
      ∷ optional (codes "last_message") text
      ∷ [];
  more = [];
}

unfoldable pub index_name : Text → Text → Text
index_name table col = codes "ix_" ++ table ++ codes "_" ++ col

unfoldable pub indexes_of : Text → List ModelColumn → List (Text × SqlIndex)
unfolding index_name
indexes_of table [] = []
indexes_of table (c ∷ cs) =
    let rest = indexes_of table cs in
    if c.index
    then (
      index_name table c.name,
      record { table = table; columns = c.name ∷ []; unique = c.unique },
    )
      ∷ rest
    else rest

unfoldable pub primary_of : List ModelColumn → Text
primary_of [] = []
primary_of (c ∷ cs) = let rest = primary_of cs in if c.primary_key then c.name else rest

-- the table and the indexes that `Base.metadata` has for a model
unfoldable pub table_of : Model → SqlTable
unfolding primary_of
table_of m = record {
  columns = map (λ c. column c.name c.type c.nullable) m.columns;
  primary_key = primary_of m.columns;
}

unfoldable pub all_indexes : Model → List (Text × SqlIndex)
unfolding indexes_of
all_indexes m = indexes_of m.tablename m.columns ++ m.more

-- `Base.metadata`
unfoldable pub metadata : List Model
metadata = source_row ∷ program_row ∷ job_row ∷ user_row ∷ source_health_row ∷ []
