-- ===== src/Migrations/Agreement.antt =====
-- When a table of the database is the one that a class of src/*/models.py declares.
use vici.Base.{Bool, true, false, ◌&&◌, List, [], ◌∷◌, any_of, count_if, ◌==◌}
use vici.Base.Texts.{Text, same}
use vici.Migrations.{
  ColumnType, integer_type, string_type, text_type, float_type, boolean_type, timestamp_type,
  Column, OnDelete, restrict, set_null, cascade, Condition, primary_key, foreign_key, unique, check,
  Index, Table, Schema,
}
use vici.Migrations.Database.{all_of}
use vici.Migrations.Models.{Model}

-- Whether PostgreSQL stores the types alike: a `String` without a length and a `Text` are, and the
-- classes have the one where some revisions have the other.
abbrev stored_alike : ColumnType → ColumnType → Bool
stored_alike integer_type integer_type = true
stored_alike string_type string_type = true
stored_alike string_type text_type = true
stored_alike text_type string_type = true
stored_alike text_type text_type = true
stored_alike float_type float_type = true
stored_alike boolean_type boolean_type = true
stored_alike timestamp_type timestamp_type = true
stored_alike _ _ = false

abbrev same_bool : Bool → Bool → Bool
same_bool true b = b
same_bool false true = false
same_bool false false = true

abbrev same_names : List Text → List Text → Bool
same_names [] [] = true
same_names (x ∷ xs) (y ∷ ys) = same x y && same_names xs ys
same_names _ _ = false

abbrev same_delete : OnDelete → OnDelete → Bool
same_delete restrict restrict = true
same_delete set_null set_null = true
same_delete cascade cascade = true
same_delete _ _ = false

abbrev same_column : Column → Column → Bool
same_column c d =
    same c.name d.name && stored_alike c.type_ d.type_ && same_bool c.nullable d.nullable

abbrev same_condition : Condition → Condition → Bool
same_condition (primary_key cs) (primary_key ds) = same_names cs ds
same_condition (foreign_key cs n es d) (foreign_key ds m fs e) =
    same_names cs ds && same n m && same_names es fs && same_delete d e
same_condition (unique cs) (unique ds) = same_names cs ds
same_condition (check cs e) (check ds f) = same_names cs ds && same e f
same_condition _ _ = false

abbrev same_index : Index → Index → Bool
same_index i j =
    same i.name j.name && same_names i.columns j.columns && same_bool i.is_unique j.is_unique

-- The table has the columns that the class declares and no others, and of the constraints and the
-- indexes at least those.
abbrev is_of : Model → Table → Bool
is_of m t =
    same m.tablename t.name
    && all_of (λ c. any_of (same_column c) t.columns) m.columns
    && all_of (λ d. any_of (λ c. same_column c d) m.columns) t.columns
    && all_of (λ k. any_of (λ l. same_condition k l.condition) t.constraints) m.conditions
    && all_of (λ i. any_of (same_index i) t.indexes) m.indexes

-- Every class has exactly one table, and every table is of exactly one class.
abbrev pub agrees : List Model → Schema → Bool
agrees ms s =
    all_of (λ m. count_if (is_of m) s == 1) ms && all_of (λ t. count_if (λ m. is_of m t) ms == 1) s
