-- ===== src/Base/Floats.antt =====
-- The floats that the program computes with, as an interface: Python's `float` has no counterpart
-- among the native types. `Float` stands for the floats other than NaN, infinity included, and
-- `round` and `times` are used on non-negative values only. `quarters` is a concrete instance, hours
-- counted in quarters of an hour, of which a million million are infinite.
use vici.Base.Tests.{ltb, ◌==◌, if◌then◌else◌, Bool-cases}
use vici.Base.Texts.{Text}
use vici.Base.Int.{ℤ, pos, pos_part, ◌-ℤ◌, leb_ℤ, -ℤ_parts}
use Prim.Native.Nat.{ℕ, suc, ◌+◌, ◌*◌, ◌/◌, ◌%◌}
use mathlib.Core.Path.{◌≡◌}
use mathlib.Core.Logic.{◌⊎◌, inl, inr}
use mathlib.Core.Bool.{Bool, true, not, ◌&&◌}
use mathlib.Core.Option.{Option, none, some}
use mathlib.Core.List.{[], ◌∷◌, ◌++◌}
use native.Mathlib.Omega.{arith}

pub record Floats : Type 1 where
  pub Float : Type 0
  -- `0.0`
  pub nought : Float
  -- `a <= b`
  pub le? : Float → Float → Bool
  -- `a - b`
  pub minus : Float → Float → Float
  -- `n * x` of an int and a float; an int beyond the floats counts as infinite
  pub times : ℕ → Float → Float
  -- `int(round(x))`; `none` is the OverflowError where `x` is infinite
  pub round : Float → Option ℕ
  -- `m / n` of two ints, as far as the quotient is within the floats
  pub ratio : ℕ → ℕ → Float
  -- f"{x:.0f}" and f"{x:.1f}"
  pub format_0f : Float → Text
  pub format_1f : Float → Text

-- The order of the floats is total, and a rounded subtraction is monotone. The code only subtracts
-- non-negative values from others that are not positive, so that it never meets the difference of
-- an infinity with itself, which is NaN in Python and may be any float here.
pub record IsOrdered (fl : Floats) : Type 0 where
  pub le_total : (a b : fl.Float) → (fl.le? a b ≡ true) ⊎ (fl.le? b a ≡ true)
  pub le_trans : (a b c : fl.Float) → fl.le? a b ≡ true → fl.le? b c ≡ true → fl.le? a c ≡ true
  pub minus_mono :
      (a b d : fl.Float) → fl.le? a b ≡ true → fl.le? (fl.minus a d) (fl.minus b d) ≡ true
  pub minus_le : (a d : fl.Float) → fl.le? fl.nought d ≡ true → fl.le? (fl.minus a d) a ≡ true

module _ (fl : Floats) where
  open fl use {Float, nought, le?}

  -- `a < b`
  abbrev pub below : Float → Float → Bool
  below a b = not (le? b a)

  -- `bool(x)`, which is `x != 0.0`
  abbrev pub truthy : Float → Bool
  truthy x = not (le? x nought && le? nought x)

-- `round` of a quotient, halves to the even neighbour
abbrev round_half_even : ℕ → ℕ → ℕ
round_half_even m n =
    if ltb (2 * (m % n)) n
    then m / n
    else if (2 * (m % n)) == n
    then (m / n) + ((m / n) % 2)
    else suc (m / n)

-- one decimal digit
abbrev digit : ℕ → ℕ
digit n = b'0' + n % 10

-- a number below a million, in decimal
abbrev decimal : ℕ → Text
decimal n =
    if ltb n 10
    then digit n ∷ []
    else if ltb n 100
    then digit (n / 10) ∷ digit n ∷ []
    else if ltb n 1000
    then digit (n / 100) ∷ digit (n / 10) ∷ digit n ∷ []
    else digit (n / 1000) ∷ digit (n / 100) ∷ digit (n / 10) ∷ digit n ∷ []

-- Quarters, for the examples. The law of a quotient is rounded to the nearest quarter below.
abbrev pub quarters : Floats
quarters = record {
  Float = ℤ;
  nought = pos 0;
  le? = leb_ℤ;
  minus = ◌-ℤ◌;
  times = λ n x. pos (n * pos_part x);
  round = λ x.
      if ltb (pos_part x) 1_000_000_000_000 then some (round_half_even (pos_part x) 4) else none;
  ratio = λ m n. pos (m * 4 / n);
  format_0f = λ x. decimal (round_half_even (pos_part x) 4);
  format_1f =
      λ x. decimal (pos_part x / 4) ++ b'.' ∷ digit (round_half_even (pos_part x % 4 * 10) 4) ∷ [];
}

leb_ℤ_total : (a b : ℤ) → (leb_ℤ a b ≡ true) ⊎ (leb_ℤ b a ≡ true)
leb_ℤ_total a b = elim (Bool-cases (leb_ℤ a b)) [ inl e ↦ inl e | inr e ↦ inr (ground arith) ]

leb_ℤ_trans : (a b c : ℤ) → leb_ℤ a b ≡ true → leb_ℤ b c ≡ true → leb_ℤ a c ≡ true
leb_ℤ_trans a b c h k = ground arith

leb_ℤ_mono : (a b d : ℤ) → leb_ℤ a b ≡ true → leb_ℤ (a -ℤ d) (b -ℤ d) ≡ true
leb_ℤ_mono a b d h = ground (arith, -ℤ_parts a d, -ℤ_parts b d)

leb_ℤ_minus : (a d : ℤ) → leb_ℤ (pos 0) d ≡ true → leb_ℤ (a -ℤ d) a ≡ true
leb_ℤ_minus a d h = ground (arith, -ℤ_parts a d)

pub quarters-IsOrdered : IsOrdered quarters
quarters-IsOrdered = record {
  le_total = leb_ℤ_total;
  le_trans = leb_ℤ_trans;
  minus_mono = leb_ℤ_mono;
  minus_le = leb_ℤ_minus;
}
