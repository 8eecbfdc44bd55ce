-- ===== src/Migrations/Restored.antt =====
-- migrations/versions: where the revisions lead, and the way back.
use vici.Base.{
  ℕ, suc, ◌≡◌, sym, ◌∙◌, List, [], ◌∷◌, ◌++◌, ◌∈◌, some, All, take, ◌≤◌, elim_or, get_or, arith,
}
use vici.Base.Members.{mem_of_All}
use vici.Migrations.{Operation, Schema}
use vici.Migrations.Database.{apply, run, Database}
use vici.Migrations.Revisions.{initial_schema, upgrades, downgrades, revisions}
use vici.Migrations.Schemas.{IsFree, Leads, run_beside}

-- The statements of the way through the first `k` revisions and back.
abbrev pub there_and_back : ℕ → List Operation
there_and_back k = upgrades (take k revisions) ++ downgrades (take k revisions)

-- The statements of the first `k` revisions and of one more with its downgrade.
abbrev pub upgrade_and_downgrade : ℕ → List Operation
upgrade_and_downgrade k =
    upgrades (take (suc k) revisions) ++ (get_or revisions k initial_schema).downgrade

-- All but 003 and 007, counted from 0.
abbrev pub reversible : List ℕ
reversible = 0 ∷ 1 ∷ 3 ∷ 4 ∷ 5 ∷ 7 ∷ []

-- The tables that the first `k` revisions make in an empty schema.
unfoldable tables_at : ℕ → Schema
unfolding run apply
tables_at k = elim_or [] (λ t. t) (run apply (upgrades (take k revisions)) [])

abbrev IsRestored : ℕ → Type 0
IsRestored k = Leads (there_and_back k) []

abbrev IsUndone : ℕ → Type 0
IsUndone k =
    Leads (upgrades (take k revisions)) (tables_at k)
    × Leads (upgrade_and_downgrade k) (tables_at k)

there_and_back-IsRestored : All IsRestored (0 ∷ 1 ∷ 2 ∷ 3 ∷ 4 ∷ 5 ∷ 6 ∷ 7 ∷ 8 ∷ [])
unfolding run apply
there_and_back-IsRestored = ground arith

upgrade_and_downgrade-IsUndone : All IsUndone reversible
unfolding run apply tables_at
upgrade_and_downgrade-IsUndone = ground arith

module _ (db : Database) (s : Schema) (h : IsFree s) where
  -- In a schema with none of the program's names: the first k revisions, whatever k, and then their
  -- downgrades in the opposite order are carried out and leave the schema as it was.
  pub there_and_back_restores : (k : ℕ) → k ≤ 8 → run db.execute (there_and_back k) s ≡ some s
  there_and_back_restores k le = run_beside s h db (there_and_back k) [] (
      mem_of_All IsRestored (0 ∷ 1 ∷ 2 ∷ 3 ∷ 4 ∷ 5 ∷ 6 ∷ 7 ∷ 8 ∷ []) there_and_back-IsRestored k
        (ground arith))

  -- In a schema with none of the program's names: after the revisions before it, each revision but
  -- 003 and 007 and then its downgrade leave the schema as it was.
  pub downgrade_undoes_upgrade :
      (k : ℕ)
      → k ∈ reversible
      → run db.execute (upgrade_and_downgrade k) s ≡ run db.execute (upgrades (take k revisions)) s
  downgrade_undoes_upgrade k m =
      let undone = mem_of_All IsUndone reversible upgrade_and_downgrade-IsUndone k m in
      run_beside s h db (upgrade_and_downgrade k) (tables_at k) undone.1
      ∙ sym (run_beside s h db (upgrades (take k revisions)) (tables_at k) undone.0)
