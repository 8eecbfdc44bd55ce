-- ===== src/Migrations/Database.antt =====
-- What PostgreSQL makes of the statements: the interface to it, with the behaviour that its
-- documentation promises, as far as the schema decides it.
use vici.Base.{
  ◌≡◌, Bool, true, false, not, ◌&&◌, ◌||◌, List, [], ◌∷◌, ◌++◌, Option, none, some, any_of, keep_if,
  update_where, ◌>>=◌, if◌then◌else◌,
}
use vici.Base.Texts.{Text, lit, same}
use vici.Migrations.{
  Column, Condition, primary_key, foreign_key, unique, check, Constraint, Index, Table, Schema,
  Operation, create_table, drop_table, add_column, drop_column, alter_nullable, alter_type,
  create_constraint, drop_constraint, create_index, drop_index,
}

abbrev pub all_of {ℓ} : {A : Type ℓ} → (A → Bool) → List A → Bool
all_of p [] = true
all_of p (x ∷ xs) = p x && all_of p xs

abbrev pub has_table : Text → Schema → Bool
has_table n s = any_of (λ t. same t.name n) s

abbrev has_column : Text → Table → Bool
has_column c t = any_of (λ d. same d.name c) t.columns

abbrev pub has_index : Text → Schema → Bool
has_index i s = any_of (λ t. any_of (λ x. same x.name i) t.indexes) s

-- The columns of its own table that a condition mentions.
abbrev columns_of : Condition → List Text
columns_of (primary_key cs) = cs
columns_of (foreign_key cs t ds d) = cs
columns_of (unique cs) = cs
columns_of (check cs e) = cs

abbrev pub mentions : Text → List Text → Bool
mentions c cs = any_of (same c) cs

abbrev pub points_to : Text → Constraint → Bool
points_to n k = elim k.condition [ foreign_key cs t ds d ↦ same t n | _ ↦ false ]

abbrev pub points_at : Text → Text → Constraint → Bool
points_at n c k = elim k.condition [ foreign_key cs t ds d ↦ same t n && mentions c ds | _ ↦ false ]

-- Whether another table than `n` has a foreign key to it, or to a column of it.
abbrev pub is_referenced : Text → Schema → Bool
is_referenced n s = any_of (λ t. not (same t.name n) && any_of (points_to n) t.constraints) s

abbrev pub is_column_referenced : Text → Text → Schema → Bool
is_column_referenced n c s =
    any_of (λ t. not (same t.name n) && any_of (points_at n c) t.constraints) s

-- The name that a foreign key is given that has none: its table, its column and `fkey`. The other
-- names that are given are of no matter to the revisions.
abbrev name_of : Text → Constraint → Text
name_of n k = elim k.name [
  | some name ↦ name
  | none ↦ elim k.condition [
    | foreign_key cs t ds d ↦ n ++ (lit "_" ++ (first cs ++ lit "_fkey"))
    | primary_key cs ↦ n ++ lit "_pkey"
    | _ ↦ n
  ]
]
  where
    first : List Text → Text
    first [] = []
    first (c ∷ cs) = c

-- A statement about one table, which fails without it.
abbrev pub modify : Text → (Table → Option Table) → Schema → Option Schema
modify n f [] = none
modify n f (t ∷ ts) = elim (same t.name n) [
  | true ↦ f t >>= λ u. some (u ∷ ts)
  | false ↦ modify n f ts >>= λ us. some (t ∷ us)
]

abbrev pub without : Text → Schema → Schema
without n [] = []
without n (t ∷ ts) = elim (same t.name n) [ true ↦ ts | false ↦ t ∷ without n ts ]

abbrev has_constraint : Text → Table → Bool
has_constraint name t = any_of (λ k. same (name_of t.name k) name) t.constraints

abbrev pub has_target : Schema → Condition → Bool
has_target s (foreign_key cs n ds d) = has_table n s
has_target s _ = true

-- A constraint mentions columns that there are and refers to a table that there is.
abbrev pub is_valid : Schema → Table → Constraint → Bool
is_valid s t k = all_of (λ c. has_column c t) (columns_of k.condition) && has_target s k.condition

abbrev make_column : Column → Table → Option Table
make_column c t =
    if has_column c.name t then none else some record t { columns = t.columns ++ c ∷ [] }

-- With a column go the constraints and the indexes that mention it.
abbrev pub remove_column : Text → Table → Option Table
remove_column c t =
    if has_column c t
    then some record t {
      columns = keep_if (λ d. not (same d.name c)) t.columns;
      constraints = keep_if (λ k. not (mentions c (columns_of k.condition))) t.constraints;
      indexes = keep_if (λ i. not (mentions c i.columns)) t.indexes;
    }
    else none

abbrev change_column : Text → (Column → Column) → Table → Option Table
change_column c f t =
    if has_column c t
    then some record t { columns = update_where (λ d. same d.name c) f t.columns }
    else none

abbrev pub make_constraint : Schema → Constraint → Table → Option Table
make_constraint s k t =
    if has_constraint (name_of t.name k) t || not (is_valid s t k)
    then none
    else some record t { constraints = t.constraints ++ k ∷ [] }

abbrev remove_constraint : Text → Table → Option Table
remove_constraint name t =
    if has_constraint name t
    then some
        record t { constraints = keep_if (λ k. not (same (name_of t.name k) name)) t.constraints }
    else none

abbrev pub make_index : Index → Table → Option Table
make_index i t =
    if all_of (λ c. has_column c t) i.columns
    then some record t { indexes = t.indexes ++ i ∷ [] }
    else none

abbrev pub remove_index : Text → Schema → Option Schema
remove_index i [] = none
remove_index i (t ∷ ts) = elim (any_of (λ x. same x.name i) t.indexes) [
  | true ↦ some (record t { indexes = keep_if (λ x. not (same x.name i)) t.indexes } ∷ ts)
  | false ↦ remove_index i ts >>= λ us. some (t ∷ us)
]

-- What a statement makes of the schema, and `none` if it is refused.
unfoldable pub apply : Operation → Schema → Option Schema
apply (create_table n cs ks) s =
    let t : Table = record { name = n; columns = cs; constraints = ks; indexes = [] } in
    if has_table n s || not (all_of (is_valid (t ∷ s) t) ks) then none else some (t ∷ s)
apply (drop_table n) s =
    if not (has_table n s) || is_referenced n s then none else some (without n s)
apply (add_column n c) s = modify n (make_column c) s
apply (drop_column n c) s =
    if is_column_referenced n c s then none else modify n (remove_column c) s
apply (alter_nullable n c b) s = modify n (change_column c (λ d. record d { nullable = b })) s
apply (alter_type n c ty using) s = modify n (change_column c (λ d. record d { type_ = ty })) s
apply (create_constraint n k) s = modify n (make_constraint s k) s
apply (drop_constraint n name) s = modify n (remove_constraint name) s
apply (create_index n i) s = if has_index i.name s then none else modify n (make_index i) s
apply (drop_index i) s = remove_index i s

pub record Database : Type 0 where
  pub execute : Operation → Schema → Option Schema
  pub execute_lem : (o : Operation) (s : Schema) → execute o s ≡ apply o s

-- A script of statements, which stops at one that is refused.
unfoldable pub run : (Operation → Schema → Option Schema) → List Operation → Schema → Option Schema
run execute [] s = some s
run execute (o ∷ os) s = execute o s >>= run execute os
