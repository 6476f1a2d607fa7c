-- ===== src/Examples/Ratios.antt =====
-- The number type of the examples meets the laws that the theorems ask for.
use signalmesh.Base.{ℕ, suc, ◌*◌, ◌/◌, ◌≡◌, refl, ap, ◌∙◌, arith}
use signalmesh.Base.Int.{pos, sub_ℕ}
use signalmesh.Base.Float.{FloatRatios, FloatCents}
use native.Mathlib.Nat.{mul-div_cancel, zero-div}
use signalmesh.Examples.Cents.{Cents, cents_float}

sub_ℕ-zero : (a : ℕ) → sub_ℕ a 0 ≡ pos a
sub_ℕ-zero a = ground arith

div_nothing : (n : ℕ) → 0 * 100 / (suc n * 100) ≡ 0
div_nothing n = zero-div (suc n * 100)

whole : (n : ℕ) → suc n * 100 * 100 / (suc n * 100) ≡ 100
whole n =
    let same : suc n * 100 * 100 ≡ 100 * (suc n * 100) = omega arith in
    ap (λ x. x / (suc n * 100)) same ∙ mul-div_cancel 100 (omega arith)

product : (a b : ℕ) → a * 100 * (b * 100) / 100 ≡ a * b * 100
product a b =
    let same : a * 100 * (b * 100) ≡ a * b * 100 * 100 = grind arith in
    ap (λ x. x / 100) same ∙ mul-div_cancel (a * b * 100) (omega arith)

hundreds : (a : ℕ) → a * 100 / 1 ≡ a * 100
hundreds a = omega arith

nothing : (a : ℕ) → 0 * a / 100 ≡ 0
nothing a = grind arith

multiplied :
    (a b : ℕ)
    → cents_float.mul (cents_float.lit a 0) (cents_float.lit b 0) ≡ cents_float.lit (a * b) 0
multiplied a b =
    rw
      (
        hundreds a,
        hundreds b,
        hundreds (a * b),
        product a b,
        nothing (b * 100),
        sub_ℕ-zero (a * b * 100),
      )
      refl

pub cents_ratios : FloatRatios Cents
cents_ratios = record {
  div_self = λ n h. rw (sub_ℕ-zero (suc n * 100), whole n, div_nothing n) refl;
  div_zero = λ n h. rw (sub_ℕ-zero (suc n * 100), div_nothing n) refl;
  mul_lit = λ a b h. multiplied a b;
  lt_lit = λ a b h k. ground arith;
}

pub cents_cents : FloatCents Cents
cents_cents = record { lt_cents = λ a b h k. ground arith; zero = refl; one = refl }
