-- ===== src/Jobs/Models.antt =====
-- src/jobs/constants.py and src/jobs/models.py: the states of a job, its pay terms and its row.
-- Amounts are naturals, as the table's CHECK constraints have it: `pay_rate > 0`.
use vici.Base.{ℕ, Bool, Option, none, some}
use vici.Base.Floats.{Floats}
use vici.Base.Texts.{Text}
use vici.Datetimes.{Datetime}

pub data JobStatus : Type 0 where
  available accepted in_progress completed : JobStatus

pub data PayType : Type 0 where
  hourly flat unknown : PayType

-- The `INCOMPUTABLE_…` constants.
pub data IncomputableReason : Type 0 where
  unknown_pay_type null_pay_rate null_duration_hourly : IncomputableReason

pub record PayTerms (fl : Floats) : Type 0 where
  pub rate : Option ℕ
  pub pay_type : PayType
  pub duration_hours : Option fl.Float

-- A row of the table `job`, with the id that the database gave it.
pub record Job (fl : Floats) : Type 0 where
  pub id : ℕ
  pub message_id : ℕ
  pub description : Option Text
  pub location : Option Text
  pub pay_rate : Option ℕ
  pub pay_type : PayType
  pub estimated_duration_hours : Option fl.Float
  pub raw_duration_text : Option Text
  pub ideal_datetime : Option Datetime
  pub raw_datetime_text : Option Text
  pub inferred_timezone : Option Text
  pub datetime_flexible : Option Bool
  pub status : JobStatus
  pub created_at : ℕ

module _ (fl : Floats) where
  -- The two tests after the first, in the order of the source.
  abbrev reason_of_rate : PayType → Option ℕ → Option fl.Float → Option IncomputableReason
  reason_of_rate pay_type none hours = some null_pay_rate
  reason_of_rate PayType.hourly (some rate) none = some null_duration_hourly
  reason_of_rate _ (some rate) hours = none

  unfoldable pub incomputable_reason : PayTerms fl → Option IncomputableReason
  incomputable_reason terms = elim terms.pay_type [
    | PayType.unknown ↦ some unknown_pay_type
    | _ ↦ reason_of_rate terms.pay_type terms.rate terms.duration_hours
  ]

  -- What `earnings` returns past the guard. `none` is a raise: an OverflowError of an infinite
  -- product, for the asserts hold there.
  abbrev pay_of : PayType → Option ℕ → Option fl.Float → Option (Option ℕ)
  pay_of pay_type none hours = none
  pay_of PayType.hourly (some rate) none = none
  pay_of PayType.hourly (some rate) (some hours) = elim (fl.round (fl.times rate hours)) [
    | none ↦ none
    | some amount ↦ some (some amount)
  ]
  pay_of _ (some rate) hours = some (some rate)

  unfoldable pub earnings : PayTerms fl → Option (Option ℕ)
  unfolding incomputable_reason
  earnings terms = elim (incomputable_reason terms) [
    | some reason ↦ some none
    | none ↦ pay_of terms.pay_type terms.rate terms.duration_hours
  ]

  unfoldable pub pay_terms : Job fl → PayTerms fl
  pay_terms job = record {
    rate = job.pay_rate;
    pay_type = job.pay_type;
    duration_hours = job.estimated_duration_hours;
  }
