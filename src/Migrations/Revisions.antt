-- ===== src/Migrations/Revisions.antt =====
-- migrations/versions: the revisions in the order that `down_revision` gives them.
use vici.Base.{List, [], ◌∷◌, ◌++◌, Option, none, some}
use vici.Base.Texts.{Text, lit}
use vici.Migrations.{Operation}
use vici.Migrations.Initial.{upgrade_001, downgrade_001}
use vici.Migrations.Changes.{
  upgrade_002, downgrade_002, upgrade_003, downgrade_003, upgrade_004, downgrade_004, upgrade_005,
  downgrade_005, upgrade_006, downgrade_006, upgrade_007, downgrade_007, upgrade_008, downgrade_008,
}

pub record Revision : Type 0 where
  pub revision : Text
  pub down_revision : Option Text
  pub upgrade : List Operation
  pub downgrade : List Operation

abbrev from : Text → Text → List Operation → List Operation → Revision
from r d up down = record { revision = r; down_revision = some d; upgrade = up; downgrade = down }

abbrev pub initial_schema : Revision
initial_schema = record {
  revision = lit "001";
  down_revision = none;
  upgrade = upgrade_001;
  downgrade = downgrade_001;
}

abbrev pub extraction_additions : Revision
extraction_additions = from (lit "002") (lit "001") upgrade_002 downgrade_002

abbrev pub normalize_3nf : Revision
normalize_3nf = from (lit "003") (lit "002") upgrade_003 downgrade_003

abbrev pub add_phone_e164 : Revision
add_phone_e164 = from (lit "004") (lit "003") upgrade_004 downgrade_004

abbrev pub add_job_status : Revision
add_job_status = from (lit "005") (lit "004") upgrade_005 downgrade_005

abbrev pub money_columns_to_cents : Revision
money_columns_to_cents = from (lit "006") (lit "005") upgrade_006 downgrade_006

abbrev pub drop_rate_limit_count : Revision
drop_rate_limit_count = from (lit "007") (lit "006") upgrade_007 downgrade_007

abbrev pub add_work_goal_target_deadline : Revision
add_work_goal_target_deadline = from (lit "008") (lit "007") upgrade_008 downgrade_008

abbrev pub revisions : List Revision
revisions =
    initial_schema ∷ extraction_additions ∷ normalize_3nf ∷ add_phone_e164 ∷ add_job_status
    ∷ money_columns_to_cents ∷ drop_rate_limit_count ∷ add_work_goal_target_deadline ∷ []

-- The statements that lead from nothing through some revisions, and those that lead back.
abbrev pub upgrades : List Revision → List Operation
upgrades [] = []
upgrades (r ∷ rs) = r.upgrade ++ upgrades rs

abbrev pub downgrades : List Revision → List Operation
downgrades [] = []
downgrades (r ∷ rs) = downgrades rs ++ r.downgrade
