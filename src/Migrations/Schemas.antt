-- ===== src/Migrations/Schemas.antt =====
-- migrations/versions: the names that the revisions use, and the schemas that have none of them.
use mathlib.Core.Path.{fun_ext}
use vici.Base.{
  ◌≡◌, refl, ap, ◌∙◌, Bool, true, false, List, [], ◌∷◌, ◌++◌, ◌∈◌, some, All, any_of, arith,
}
use vici.Base.Texts.{Text, lit, same_iff}
use vici.Base.Members.{mem_of_All}
use vici.Migrations.{
  Operation, create_table, drop_table, add_column, drop_column, alter_nullable, alter_type,
  create_constraint, drop_constraint, create_index, drop_index, Schema, Constraint,
}
use vici.Migrations.Database.{
  has_table, has_index, is_referenced, is_column_referenced, mentions, all_of, apply, run, Database,
  points_to, points_at,
}
use vici.Migrations.Frames.{IsApart, run-append}

abbrev pub table_names : List Text
table_names =
    lit "user"
    ∷ lit "message"
    ∷ lit "job"
    ∷ lit "work_goal"
    ∷ lit "match"
    ∷ lit "rate_limit"
    ∷ lit "audit_log"
    ∷ lit "pinecone_sync_queue"
    ∷ []

abbrev pub index_names : List Text
index_names =
    lit "ix_user_phone_hash"
    ∷ lit "ix_message_message_sid"
    ∷ lit "ix_message_user_id"
    ∷ lit "ix_audit_log_message_sid"
    ∷ lit "ix_psq_status"
    ∷ lit "ix_rate_limit_user_created_at"
    ∷ []

-- A schema that has none of the program's tables and indexes, nor a foreign key to them.
pub record IsFree (s : Schema) : Type 0 where
  pub tables : All (λ n. has_table n s ≡ false) table_names
  pub references : All (λ n. is_referenced n s ≡ false) table_names
  pub indexes : All (λ i. has_index i s ≡ false) index_names

-- Whether a statement makes and drops only what the program names.
abbrev pub is_ours : Operation → Bool
is_ours (create_table n cs ks) = mentions n table_names
is_ours (drop_table n) = mentions n table_names
is_ours (drop_column n c) = mentions n table_names
is_ours (create_index n i) = mentions i.name index_names
is_ours _ = true

-- A script leads from an empty schema to these tables, and makes and drops only what the program
-- names.
abbrev pub Leads : List Operation → Schema → Type 0
Leads os t = (all_of is_ours os ≡ true) × (run apply os [] ≡ some t)

mem_of_mentions : (n : Text) (ns : List Text) → mentions n ns ≡ true → n ∈ ns
mem_of_mentions n [] e = absurd (cc)
mem_of_mentions n (m ∷ ns) e = ground (arith, same_iff n m, mem_of_mentions n ns)

points_at_of_points_to :
    (n c : Text) (ks : List Constraint)
    → any_of (points_to n) ks ≡ false
    → any_of (points_at n c) ks ≡ false
points_at_of_points_to n c [] e = refl
points_at_of_points_to n c (k ∷ ks) e = ground (arith, points_at_of_points_to n c ks)

is_column_referenced_of_is_referenced :
    (n c : Text) (s : Schema) → is_referenced n s ≡ false → is_column_referenced n c s ≡ false
is_column_referenced_of_is_referenced n c [] e = refl
is_column_referenced_of_is_referenced n c (t ∷ s) e =
    ground
      (arith, points_at_of_points_to n c t.constraints, is_column_referenced_of_is_referenced n c s)

module _ (s : Schema) (h : IsFree s) where
  is_ours-IsApart : (o : Operation) → is_ours o ≡ true → IsApart s o
  is_ours-IsApart (create_table n cs ks) e =
      mem_of_All (λ m. has_table m s ≡ false) table_names h.tables n
        (mem_of_mentions n table_names e)
  is_ours-IsApart (drop_table n) e =
      mem_of_All (λ m. is_referenced m s ≡ false) table_names h.references n
        (mem_of_mentions n table_names e)
  is_ours-IsApart (add_column n c) e = tt
  is_ours-IsApart (drop_column n c) e = is_column_referenced_of_is_referenced n c s (
      mem_of_All (λ m. is_referenced m s ≡ false) table_names h.references n
        (mem_of_mentions n table_names e))
  is_ours-IsApart (alter_nullable n c b) e = tt
  is_ours-IsApart (alter_type n c ty u) e = tt
  is_ours-IsApart (create_constraint n k) e = tt
  is_ours-IsApart (drop_constraint n name) e = tt
  is_ours-IsApart (create_index n i) e =
      mem_of_All (λ m. has_index m s ≡ false) index_names h.indexes i.name
        (mem_of_mentions i.name index_names e)
  is_ours-IsApart (drop_index i) e = tt

  all_of-IsApart : (os : List Operation) → all_of is_ours os ≡ true → All (IsApart s) os
  all_of-IsApart [] e = tt
  all_of-IsApart (o ∷ os) e = (is_ours-IsApart o (ground arith), all_of-IsApart os (ground arith))

  module _ (db : Database) where
    run-execute : (os : List Operation) (a : Schema) → run db.execute os a ≡ run apply os a
    run-execute os a = ap (λ f. run f os a) (fun_ext λ o. fun_ext λ b. db.execute_lem o b)

    -- A script that makes and drops only what the program names does beside other tables what it
    -- does in an empty schema.
    pub run_beside :
        (os : List Operation) (t : Schema) → Leads os t → run db.execute os s ≡ some (t ++ s)
    run_beside os t e = run-execute os s ∙ run-append s os [] t (all_of-IsApart os e.0) e.1
