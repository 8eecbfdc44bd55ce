-- ===== src/Datetimes/Tests.antt =====
-- The coercion of a naive text.
use vici.Base.{Option, none, some, [], ◌∷◌}
use vici.Base.Texts.{Text, lit}
use vici.Datetimes.{Datetime, text, coerce_llm_datetime}
use vici.Datetimes.Coercion.{parsed, Relabels, coerce_llm_datetime-Relabels}

-- A parser that knows one naive time.
abbrev at_midnight : Text → Option Datetime
at_midnight [] = none
at_midnight (c ∷ cs) = some (record { wall = 0; offset = none })

coerce_llm_datetime-Relabels_example :
    Relabels
      (parsed at_midnight (text (lit "0001-01-01")))
      (coerce_llm_datetime at_midnight (text (lit "0001-01-01")))
coerce_llm_datetime-Relabels_example =
    coerce_llm_datetime-Relabels at_midnight (text (lit "0001-01-01"))
