-- ===== src/Migrations/Tests.antt =====
-- migrations/versions: the revisions in a schema with a table of another program.
use vici.Base.{◌≡◌, refl, [], ◌∷◌, some, inl, inr, take, arith}
use vici.Base.Texts.{lit}
use vici.Migrations.{string_type, Table, Schema}
use vici.Migrations.Rows.{required}
use vici.Migrations.Database.{Database, apply, run}
use vici.Migrations.Revisions.{revisions, upgrades}
use vici.Migrations.Schemas.{IsFree}
use vici.Migrations.Restored.{
  there_and_back, upgrade_and_downgrade, there_and_back_restores, downgrade_undoes_upgrade,
}

abbrev other_table : Table
other_table = record {
  name = lit "alembic_version";
  columns = required (lit "version_num") string_type ∷ [];
  constraints = [];
  indexes = [];
}

abbrev other_schema : Schema
other_schema = other_table ∷ []

abbrev postgres : Database
postgres = record { execute = apply; execute_lem = λ o s. refl }

other_schema-IsFree : IsFree other_schema
other_schema-IsFree = record {
  tables = ground arith;
  references = ground arith;
  indexes = ground arith;
}

there_and_back_restores_example : run apply (there_and_back 8) other_schema ≡ some other_schema
there_and_back_restores_example =
    there_and_back_restores postgres other_schema other_schema-IsFree 8 (omega arith)

downgrade_undoes_upgrade_example :
    run apply (upgrade_and_downgrade 1) other_schema
    ≡ run apply (upgrades (take 1 revisions)) other_schema
downgrade_undoes_upgrade_example =
    downgrade_undoes_upgrade postgres other_schema other_schema-IsFree 1 (inr (inl refl))
