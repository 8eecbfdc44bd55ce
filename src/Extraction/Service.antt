-- ===== src/Extraction/Service.antt =====
-- src/extraction/service.py: the classification of a message by the language model, with retries.
-- A reply of the OpenAI client is a parameter: what the n-th call gives. tenacity's `@retry` is the
-- loop `call_with_retry`: past the last attempt it raises its own RetryError.
use vici.Base.{
  ℕ, zero, suc, ◌+◌, Bool, true, false, Option, none, some, if◌then◌else◌, elim_or, ◌++◌,
}
use vici.Base.Floats.{Floats}
use vici.Base.Texts.{Text, lit}
use vici.Store.{MessageType, Result, ok, err, retry_error, external_error, extraction_parse_error}
use vici.Extraction.{ExtractionResult}

-- src/extraction/constants.py
abbrev pub gpt_retry_max_attempts : ℕ
gpt_retry_max_attempts = 4

-- `completion.usage`, whose counts may be `None`.
pub record Usage : Type 0 where
  pub prompt_tokens : Option ℕ
  pub completion_tokens : Option ℕ

-- What one call of `parse` ends in. `other` is any exception that is neither of the two retried.
pub data Reply (fl : Floats) : Type 0 where
  rate_limit_error api_status_error other : Reply fl
  completion : Option (ExtractionResult fl) → Option Usage → Reply fl

-- The client, asked with a user message for the n-th time.
abbrev pub Client : Floats → Type 0
Client fl = Text → ℕ → Reply fl

-- The counters of src/metrics.py that the pipeline increments.
pub record Counters : Type 0 where
  pub job_posting_calls : ℕ
  pub work_goal_calls : ℕ
  pub unknown_calls : ℕ
  pub input_tokens : ℕ
  pub output_tokens : ℕ
  -- `pipeline_failures_total.labels(function="process-message")`
  pub pipeline_failures : ℕ

module _ {fl : Floats} where
  -- `retry_if_exception_type((RateLimitError, APIStatusError))`
  abbrev pub is_retried : Reply fl → Bool
  is_retried rate_limit_error = true
  is_retried api_status_error = true
  is_retried _ = false

  -- What the body makes of a reply that is not retried.
  abbrev pub body_of : Reply fl → Result (ExtractionResult fl × Option Usage)
  body_of (completion (some parsed) usage) = ok (parsed, usage)
  body_of (completion none usage) = err extraction_parse_error
  body_of _ = err external_error

  -- The result, and the number of calls made. `left` attempts are left, and `n` calls are made.
  unfoldable pub call_with_retry :
      Client fl → Text → (left n : ℕ) → Result (ExtractionResult fl × Option Usage) × ℕ
  call_with_retry client user_message zero n = (err retry_error, n)
  call_with_retry client user_message (suc left) n =
      let again = call_with_retry client user_message left (suc n) in
      if is_retried (client user_message n) then again else (body_of (client user_message n), suc n)

-- `gpt_calls_total.labels(classification_result=…).inc()`
abbrev count_call : MessageType → Counters → Counters
count_call MessageType.job_posting c = record c { job_posting_calls = c.job_posting_calls + 1 }
count_call MessageType.work_goal c = record c { work_goal_calls = c.work_goal_calls + 1 }
count_call MessageType.unknown c = record c { unknown_calls = c.unknown_calls + 1 }

-- `usage.… or 0`
abbrev tokens : Option ℕ → ℕ
tokens o = elim_or 0 (λ n. n) o

abbrev count_usage : Option Usage → Counters → Counters
count_usage none c = c
count_usage (some usage) c = record c {
  input_tokens = c.input_tokens + tokens usage.prompt_tokens;
  output_tokens = c.output_tokens + tokens usage.completion_tokens;
}

module _ {fl : Floats} where
  abbrev conclude_call :
      Counters
      → Result (ExtractionResult fl × Option Usage)
      → Result (ExtractionResult fl) × Counters
  conclude_call c (err e) = (err e, c)
  conclude_call c (ok (result, usage)) =
      (ok result, count_usage usage (count_call result.message_type c))

  -- `ExtractionService.process`, on the day `today`.
  unfoldable pub process :
      Client fl → Text → Text → Counters → Result (ExtractionResult fl) × Counters
  process client today sms_text c =
      let user_message = lit "Today is " ++ (today ++ (lit ". Message: " ++ sms_text)) in
      conclude_call c (call_with_retry client user_message gpt_retry_max_attempts 0).0
