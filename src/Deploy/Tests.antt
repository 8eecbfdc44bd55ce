-- ===== src/Deploy/Tests.antt =====
-- infra: the settings of a deployed application, and the images, at concrete values.
use vici.Base.{◌≡◌, refl, true, [], none, some, inl, inr, if◌then◌else◌}
use vici.Base.Texts.{Text, lit, same}
use vici.Config.Load.{Parsers, get_settings}
use vici.Deploy.Secrets.{external_secrets}
use vici.Deploy.Pods.{app_pod, migration_pod, image_tag_of}
use vici.Deploy.Platform.{Platform, given}
use vici.Deploy.Started.{deployed_settings, get_settings-deployed}

-- Every secret has its own id as its value, but the pepper, which is empty.
abbrev own_ids : Text → Text
own_ids id = if same id (lit "prod-phone-hash-pepper") then [] else id

abbrev cluster : Platform
cluster = record {
  value = own_ids;
  variables_of = given own_ids;
  variables_of_lem = λ secrets pod key. refl;
}

abbrev parsers : Parsers
parsers = record { int_of = λ t. none; bool_of = λ t. none }

-- The application of the stack `prod` starts without a pepper.
get_settings-deployed_example :
    get_settings parsers
      (given own_ids (external_secrets (lit "prod")) (app_pod (lit "prod") (lit "4f2a")))
    ≡ some (deployed_settings cluster (lit "prod"))
get_settings-deployed_example =
    get_settings-deployed cluster (lit "prod") parsers (lit "4f2a") (inr (inr (inl refl)))

-- In CI the application runs the image that was built, and the migration job the one of the stack's
-- name.
images :
    (image_tag_of true (some (lit "4f2a")) (lit "prod")
      ≡ some (app_pod (lit "prod") (lit "4f2a")).image_tag)
    × ((migration_pod (lit "prod")).image_tag ≡ lit "prod")
unfolding image_tag_of app_pod migration_pod
images = (refl, refl)
