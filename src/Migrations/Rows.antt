-- ===== src/Migrations/Rows.antt =====
-- migrations/versions: the forms of columns and constraints that the revisions repeat.
use vici.Base.{true, false, List, [], ◌∷◌, none, some}
use vici.Base.Texts.{Text, lit}
use vici.Migrations.{
  ColumnType, integer_type, timestamp_type, Column, OnDelete, primary_key, foreign_key, unique,
  check, Constraint,
}

abbrev pub required : Text → ColumnType → Column
required n ty = record { name = n; type_ = ty; nullable = false; server_default = none }

abbrev pub optional : Text → ColumnType → Column
optional n ty = record { name = n; type_ = ty; nullable = true; server_default = none }

abbrev pub with_default : Text → ColumnType → Text → Column
with_default n ty d = record { name = n; type_ = ty; nullable = false; server_default = some d }

abbrev pub id : Text
id = lit "id"

abbrev pub user_id : Text
user_id = lit "user_id"

abbrev pub message_id : Text
message_id = lit "message_id"

-- The columns `id` and `created_at`, which every table has.
abbrev pub id_column : Column
id_column = required id integer_type

abbrev pub created_at : Column
created_at = required (lit "created_at") timestamp_type

abbrev pub id_key : Constraint
id_key = record { name = none; condition = primary_key (id ∷ []) }

-- `ForeignKeyConstraint([c], ["n.id"], ondelete=d)`
abbrev pub refers : Text → Text → OnDelete → Constraint
refers c n d = record { name = none; condition = foreign_key (c ∷ []) n (id ∷ []) d }

abbrev pub is_unique : Text → List Text → Constraint
is_unique n cs = record { name = some n; condition = unique cs }

abbrev pub holds : Text → List Text → Text → Constraint
holds n cs e = record { name = some n; condition = check cs e }
