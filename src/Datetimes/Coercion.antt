-- ===== src/Datetimes/Coercion.antt =====
-- What `coerce_llm_datetime` promises.
use vici.Base.{◌≡◌, refl, ◌⊎◌, inl, inr, true, Option, none, some, Option-cases}
use vici.Base.Int.{pos}
use vici.Base.Texts.{Text}
use vici.Datetimes.{
  Datetime, is_aware, LlmValue, null, datetime, text, label_utc, label_naive, coerce_llm_datetime,
}

-- The value that the coercion starts from.
abbrev pub parsed : (Text → Option Datetime) → LlmValue → Option Datetime
parsed fromisoformat null = none
parsed fromisoformat (datetime d) = some d
parsed fromisoformat (text t) = fromisoformat t

-- The result is the parsed value relabelled: nothing comes of junk, an aware datetime is kept as it
-- is, and a naive one keeps its wall clock and has the offset nought from UTC.
abbrev pub Relabels : Option Datetime → Option Datetime → Type 0
Relabels none r = r ≡ none
Relabels (some d) r =
    (e : Datetime) × (r ≡ some e)
    × (e.wall ≡ d.wall)
    × (((d.offset ≡ none) × (e.offset ≡ some (pos 0))) ⊎ ((is_aware d ≡ true) × (e ≡ d)))

-- Labelling a datetime keeps its wall clock, gives a naive one the offset nought, and leaves an aware
-- one alone.
label_utc_lem :
    (d : Datetime)
    → ((label_utc d).wall ≡ d.wall)
      × (((d.offset ≡ none) × ((label_utc d).offset ≡ some (pos 0)))
          ⊎ ((is_aware d ≡ true) × (label_utc d ≡ d)))
label_utc_lem d = elim (Option-cases d.offset) [
  | inl e ↦ (rw e refl, inl (e, rw e refl))
  | inr (o, e) ↦ (rw e refl, inr (rw e refl, rw e refl))
]

label_naive-Relabels : (o : Option Datetime) → Relabels o (label_naive o)
label_naive-Relabels none = refl
label_naive-Relabels (some d) = let (w, s) = label_utc_lem d in (label_utc d, refl, w, s)

-- Junk and `None` become `None`. Any other value keeps its wall-clock time: a naive one gets the
-- offset nought from UTC, and an aware one is left as it is.
pub coerce_llm_datetime-Relabels :
    (fromisoformat : Text → Option Datetime) (v : LlmValue)
    → Relabels (parsed fromisoformat v) (coerce_llm_datetime fromisoformat v)
unfolding coerce_llm_datetime
coerce_llm_datetime-Relabels f null = refl
coerce_llm_datetime-Relabels f (datetime d) = label_naive-Relabels (some d)
coerce_llm_datetime-Relabels f (text t) = elim (Option-cases (f t)) [
  | inl e ↦ rw (e, coerce_llm_datetime) refl
  | inr (d, e) ↦ rw (e, coerce_llm_datetime) (label_naive-Relabels (some d))
]
