-- ===== src/Samples.antt =====
-- Small rows that the tests of several modules share.
use vici.Base.{none, some, true, [], ◌∷◌}
use vici.Base.Int.{pos}
use vici.Base.Floats.{quarters}
use vici.Base.Texts.{lit}
use vici.Datetimes.{Datetime}
use vici.Jobs.{Job, JobStatus, PayType}
use vici.WorkGoals.{WorkGoal}
use vici.Store.{User, Message, Db}

abbrev pub noon : Datetime
noon = record { wall = 43_200_000_000; offset = some (pos 0) }

-- Two hours at 20 dollars.
abbrev pub painting : Job quarters
painting = record {
  id = 1;
  message_id = 11;
  description = some (lit "paint a fence");
  location = none;
  pay_rate = some 2000;
  pay_type = PayType.hourly;
  estimated_duration_hours = some (pos 8);
  raw_duration_text = none;
  ideal_datetime = some noon;
  raw_datetime_text = none;
  inferred_timezone = none;
  datetime_flexible = none;
  status = JobStatus.available;
  created_at = 5;
}

-- 50 dollars, whenever.
abbrev pub moving : Job quarters
moving = record painting {
  id = 2;
  message_id = 12;
  pay_rate = some 5000;
  pay_type = PayType.flat;
  estimated_duration_hours = none;
  ideal_datetime = none;
  datetime_flexible = some true;
}

-- Already taken.
abbrev pub taken : Job quarters
taken = record painting { id = 3; status = JobStatus.accepted }

abbrev alice : User
alice = record {
  id = 21;
  phone_hash = lit "hash-alice";
  phone_e164 = some (lit "+15550101");
  created_at = 1;
}

abbrev pub posting : Message
posting = record {
  id = 11;
  message_sid = lit "SM11";
  user_id = 21;
  body = lit "Need a painter";
  message_type = none;
  raw_gpt_response = none;
  created_at = 2;
}

-- 60 dollars by noon.
abbrev pub sixty : WorkGoal
sixty = record {
  id = 31;
  message_id = 13;
  target_earnings = 6000;
  target_timeframe = none;
  target_deadline = some noon;
  created_at = 6;
}

abbrev pub board : Db quarters
board = record {
  users = alice ∷ [];
  messages = posting ∷ [];
  rate_limits = [];
  audit_log = [];
  jobs = painting ∷ moving ∷ taken ∷ [];
  work_goals = sixty ∷ [];
  matches = [];
  sync_queue = [];
  next_id = 40;
}
