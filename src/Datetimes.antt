-- ===== src/Datetimes.antt =====
-- src/datetimes.py: what becomes of a datetime that the language model supplies.
-- A `Datetime` is Python's: a wall-clock time, and the offset from UTC if it is aware. Both count
-- microseconds, the wall clock from `datetime.min`. `fromisoformat` is a parameter.
pub mod Coercion
mod Tests
use vici.Base.{ℕ, Bool, true, false, Option, none, some}
use vici.Base.Int.{ℤ, pos, ◌-ℤ◌}
use vici.Base.Texts.{Text}

pub record Datetime : Type 0 where
  pub wall : ℕ
  -- `tzinfo`, as its offset
  pub offset : Option ℤ

abbrev pub is_aware : Datetime → Bool
is_aware d = elim d.offset [ none ↦ false | some _ ↦ true ]

-- `d.replace(tzinfo=UTC)`
abbrev replace_utc : Datetime → Datetime
replace_utc d = record d { offset = some (pos 0) }

-- The point in time by which two aware datetimes compare.
abbrev pub instant : Datetime → ℤ
instant d = pos d.wall -ℤ (elim d.offset [ none ↦ pos 0 | some o ↦ o ])

-- What the extraction hands over: `None`, a datetime, or anything else through `str(value)`.
pub data LlmValue : Type 0 where
  null : LlmValue
  datetime : Datetime → LlmValue
  text : Text → LlmValue

-- `if parsed is not None and parsed.tzinfo is None: parsed = parsed.replace(tzinfo=UTC)`
abbrev pub label_utc : Datetime → Datetime
label_utc d = elim d.offset [ none ↦ replace_utc d | some _ ↦ d ]

abbrev pub label_naive : Option Datetime → Option Datetime
label_naive none = none
label_naive (some d) = some (label_utc d)

-- `fromisoformat` gives `none` where it raises `ValueError` or `TypeError`.
unfoldable pub coerce_llm_datetime : (Text → Option Datetime) → LlmValue → Option Datetime
coerce_llm_datetime fromisoformat null = label_naive none
coerce_llm_datetime fromisoformat (datetime d) = label_naive (some d)
coerce_llm_datetime fromisoformat (text t) = elim (fromisoformat t) [
  | none ↦ none
  | some d ↦ label_naive (some d)
]
