-- ===== src/Migrations.antt =====
-- migrations/: the revisions of the database's schema. Here are the statements that they are made
-- of, the calls of `alembic.op`; its children hold the revisions and what the database makes of them.
pub mod Database
mod Rows
mod Frames
mod Initial
mod Changes
pub mod Revisions
pub mod Models
mod Agreement
mod Schemas
pub mod Restored
mod Tests
use vici.Base.{Bool, List, Option}
use vici.Base.Texts.{Text}

-- `Integer`, `String` and `AutoString`, `Text`, `Float`, `Boolean`, `DateTime(timezone=True)`.
pub data ColumnType : Type 0 where
  integer_type string_type text_type float_type boolean_type timestamp_type : ColumnType

pub record Column : Type 0 where
  pub name : Text
  pub type_ : ColumnType
  pub nullable : Bool
  pub server_default : Option Text

pub data OnDelete : Type 0 where
  restrict set_null cascade : OnDelete

-- A check stands with the columns that its condition mentions.
pub data Condition : Type 0 where
  primary_key : List Text → Condition
  foreign_key : List Text → Text → List Text → OnDelete → Condition
  unique : List Text → Condition
  check : List Text → Text → Condition

-- A constraint without a name gets one of the database.
pub record Constraint : Type 0 where
  pub name : Option Text
  pub condition : Condition

pub record Index : Type 0 where
  pub name : Text
  pub columns : List Text
  pub is_unique : Bool

pub record Table : Type 0 where
  pub name : Text
  pub columns : List Column
  pub constraints : List Constraint
  pub indexes : List Index

abbrev pub Schema : Type 0
Schema = List Table

-- The calls of `op`, each with the table that it is about. A check, a unique constraint and a foreign
-- key are created alike; `alter_type` may say how values are converted.
pub data Operation : Type 0 where
  create_table : Text → List Column → List Constraint → Operation
  drop_table : Text → Operation
  add_column : Text → Column → Operation
  drop_column : Text → Text → Operation
  alter_nullable : Text → Text → Bool → Operation
  alter_type : Text → Text → ColumnType → Option Text → Operation
  create_constraint : Text → Constraint → Operation
  drop_constraint : Text → Text → Operation
  create_index : Text → Index → Operation
  drop_index : Text → Operation
