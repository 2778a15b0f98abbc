-- ===== src/Infra/Schema.antt =====
-- Tables and indexes of a database, and the calls of `alembic.op` that make and drop them. The
-- database is a parameter, `Ddl`.
pub mod Revision
pub mod Metadata
pub mod Migrated
pub mod Memory
use mini_agent_go.Prelude.{
  ℕ, zero, suc, ◌+◌, ◌-◌, ◌*◌, ◌/◌, ◌%◌, ◌≤◌, ◌<◌, ◌≡◌, refl, sym, ap, ◌∙◌, ◌≢◌, ◌↔◌, ◌⊎◌, inl, inr,
  Bool, true, false, not, ◌&&◌, ◌||◌, Option, none, some, List, [], ◌∷◌, ◌++◌, map, arith, ltb, leb,
  eqb, if◌then◌else◌, eqb_iff, Bool-cases, Option-cases, is_some, get_or, length, take, filter, all,
  find, All, length-append, length-filter, length-take, length-map, All-append, Text, codes,
  empty_text, is_empty, or_text, some_text, all_text, count, append-nil, append_assoc, All-take,
  All-filter, All-not_counted, All-implied, All-both, count-append, count-filter,
  length-filter-count, ◌==◌, decimal, eq_iff, eq_refl, eq-false, eq_sym, Outcome, ok, err, ◌>>=◌,
  >>=-eq-ok,
}
use mini_agent_go.Core.Exceptions.{Exn}

pub data SqlType : Type 0 where
  string : ℕ → SqlType
  text date_time json integer boolean : SqlType

pub record SqlColumn : Type 0 where
  pub name : Text
  pub type : SqlType
  pub nullable : Bool

abbrev pub column : Text → SqlType → Bool → SqlColumn
column name type nullable = record { name = name; type = type; nullable = nullable }

pub record SqlTable : Type 0 where
  pub columns : List SqlColumn
  pub primary_key : Text

pub record SqlIndex : Type 0 where
  pub table : Text
  pub columns : List Text
  pub unique : Bool

-- the calls of `alembic.op`
pub data Op : Type 0 where
  create_table : Text → List SqlColumn → Text → Op
  create_index : Text → Text → List Text → Bool → Op
  drop_index : Text → Text → Op
  drop_table : Text → Op

-- the call that takes back another
unfoldable pub undo : Op → Option Op
undo (create_table name columns primary_key) = some (drop_table name)
undo (create_index name table columns is_unique) = some (drop_index name table)
undo (drop_index name table) = none
undo (drop_table name) = none

-- what `table` finds under a name after a call that succeeds, from what it found before
unfoldable pub table_after : Op → Text → Option SqlTable → Option SqlTable
table_after (create_table name columns primary_key) n o =
    if name == n then some (record { columns = columns; primary_key = primary_key }) else o
table_after (create_index name table columns is_unique) n o = o
table_after (drop_index name table) n o = o
table_after (drop_table name) n o = if name == n then none else o

unfoldable pub index_after : Op → Text → Option SqlIndex → Option SqlIndex
index_after (create_table name columns primary_key) n o = o
index_after (create_index name table columns is_unique) n o =
    if name == n then some (record { table = table; columns = columns; unique = is_unique }) else o
index_after (drop_index name table) n o = if name == n then none else o
index_after (drop_table name) n o = o

-- A database: what it does for a call, and what tables and indexes it has. Only of calls that do not
-- drop a table is it said what becomes of the indexes.
pub record Ddl : Type 1 where
  pub World : Type 0
  pub run : Op → World → Outcome Exn World
  pub table : Text → World → Option SqlTable
  pub index : Text → World → Option SqlIndex
  pub table-run :
      (o : Op) (w w' : World) (n : Text)
      → run o w ≡ ok w'
      → table n w' ≡ table_after o n (table n w)
  pub index-run :
      (o : Op) (w w' : World) (n : Text)
      → is_some (undo o) ≡ true
      → run o w ≡ ok w'
      → index n w' ≡ index_after o n (index n w)
  -- what was just made can be dropped, and then the schema is what it was
  pub run-undo : (o u : Op) (w w' : World) → run o w ≡ ok w' → undo o ≡ some u → run u w' ≡ ok w

-- one call after another, up to the first that fails
unfoldable pub run_all : (db : Ddl) → List Op → db.World → Outcome Exn db.World
run_all db [] w = ok w
run_all db (o ∷ os) w = do w' ← db.run o w; run_all db os w'
