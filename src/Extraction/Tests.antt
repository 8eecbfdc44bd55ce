-- ===== src/Extraction/Tests.antt =====
-- The theorems of the extraction at small inputs.
use vici.Base.{ltb, if◌then◌else◌, none, some}
use vici.Base.Floats.{quarters}
use vici.Base.Texts.{lit}
use vici.Store.{MessageType}
use vici.Extraction.{ExtractionResult}
use vici.Extraction.Service.{Client, Reply}

abbrev greeting : ExtractionResult quarters
greeting = record {
  message_type = MessageType.unknown;
  job = none;
  work_goal = none;
  unknown = some (record { reason = lit "greeting" });
}

-- A client that is busy twice.
abbrev busy_twice : Client quarters
busy_twice user_message n =
    if ltb n 2 then Reply.rate_limit_error else Reply.completion (some greeting) none
