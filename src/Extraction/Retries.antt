-- ===== src/Extraction/Retries.antt =====
-- How often the language model is asked, and what comes of it.
use vici.Base.{ℕ, zero, suc, ◌+◌, ◌<◌, ◌≡◌, true, false}
use vici.Base.Floats.{Floats}
use vici.Base.Texts.{Text}
use vici.Store.{err, retry_error}
use vici.Extraction.Service.{Client, is_retried, body_of, call_with_retry}

module _ {fl : Floats} where
  -- The replies `n`, `n + 1`, … before `n + k` ask for another attempt.
  abbrev AreRetried : Client fl → Text → ℕ → ℕ → Type 0
  AreRetried client m n zero = Unit
  AreRetried client m n (suc k) = (is_retried (client m n) ≡ true) × AreRetried client m (suc n) k

  -- The first reply that is not retried is the one `k` places on.
  pub record Settles (client : Client fl) (m : Text) (left n : ℕ) : Type 0 where
    pub k : ℕ
    pub in_time : k < left
    pub earlier : AreRetried client m n k
    pub final : is_retried (client m (n + k)) ≡ false
    pub result : call_with_retry client m left n ≡ (body_of (client m (n + k)), suc (n + k))

  -- Every reply asks for another attempt.
  abbrev pub GivesUp : Client fl → Text → ℕ → ℕ → Type 0
  GivesUp client m left n =
      AreRetried client m n left × (call_with_retry client m left n ≡ (err retry_error, n + left))
