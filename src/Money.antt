-- ===== src/Money.antt =====
-- src/money.py: money is integer cents, and dollars are floats only at the boundary.
use vici.Base.{ℕ, Option}
use vici.Base.Floats.{Floats}

abbrev cents_per_dollar : ℕ
cents_per_dollar = 100

module _ (fl : Floats) where
  -- `none` is an OverflowError.
  unfoldable pub dollars_to_cents : fl.Float → Option ℕ
  dollars_to_cents dollars = fl.round (fl.times cents_per_dollar dollars)

  unfoldable pub cents_to_dollars : ℕ → fl.Float
  cents_to_dollars cents = fl.ratio cents cents_per_dollar
