-- ===== src/Jobs/Create.antt =====
-- src/jobs/schemas.py, and `JobRepository.create` of src/jobs/repository.py.
-- `validate` is pydantic's check of a model: a field out of its bounds raises a ValidationError.
use vici.Base.{ℕ, Bool, true, Option, some, ◌&&◌, ltb, if◌then◌else◌, elim_or}
use vici.Base.Floats.{Floats}
use vici.Base.Texts.{Text}
use vici.Datetimes.{Datetime, LlmValue, coerce_llm_datetime}
use vici.Jobs.{Job, JobStatus, PayType}
use vici.Store.{Result, ok, err, validation_error, Action, persist_job}
use vici.Extraction.{fits, is_positive}

pub record JobCreate (fl : Floats) : Type 0 where
  pub message_id : ℕ
  pub description : Text
  pub location : Text
  pub pay_rate : Option ℕ
  pub pay_type : PayType
  pub estimated_duration_hours : Option fl.Float
  pub raw_duration_text : Option Text
  pub ideal_datetime : Option Datetime
  pub raw_datetime_text : Option Text
  pub inferred_timezone : Option Text
  pub datetime_flexible : Bool

module _ (fl : Floats) where
  -- The bounds of the fields.
  unfoldable pub is_job_create : JobCreate fl → Bool
  is_job_create j =
      ltb 0 j.message_id
      && (fits 1 1000 j.description
          && (fits 1 255 j.location
              && (elim_or true (ltb 0) j.pay_rate
                  && (elim_or true (is_positive fl) j.estimated_duration_hours
                      && (elim_or true (fits 0 255) j.raw_duration_text
                          && (elim_or true (fits 0 255) j.raw_datetime_text
                              && elim_or true (fits 0 100) j.inferred_timezone))))))

  -- `JobCreate(…)`, whose `ideal_datetime` is coerced before it is checked.
  unfoldable pub job_create :
      (Text → Option Datetime) → LlmValue → JobCreate fl → Result (JobCreate fl)
  job_create fromisoformat ideal_datetime fields =
      let j : JobCreate fl = record fields {
        ideal_datetime = coerce_llm_datetime fromisoformat ideal_datetime;
      } in
      if is_job_create j then ok j else err validation_error

module _ {fl : Floats} where
  -- The row that `create` adds, before it has its id.
  abbrev pub job_row : ℕ → JobCreate fl → Job fl
  job_row now j = record {
    id = 0;
    message_id = j.message_id;
    description = some j.description;
    location = some j.location;
    pay_rate = j.pay_rate;
    pay_type = j.pay_type;
    estimated_duration_hours = j.estimated_duration_hours;
    raw_duration_text = j.raw_duration_text;
    ideal_datetime = j.ideal_datetime;
    raw_datetime_text = j.raw_datetime_text;
    inferred_timezone = j.inferred_timezone;
    datetime_flexible = some j.datetime_flexible;
    status = JobStatus.available;
    created_at = now;
  }

  -- `JobRepository.create`
  unfoldable pub create_job : ℕ → JobCreate fl → Action fl (Job fl)
  create_job now j = persist_job (job_row now j)
