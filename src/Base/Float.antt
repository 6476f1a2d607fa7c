-- ===== src/Base/Float.antt =====
-- `float64` as an interface: a type with the operations that the program uses. No law is part of
-- it; a theorem that needs one takes `FloatOrder`, whose laws IEEE 754 gives, NaN included.
use Prim.Native.Nat.{ℕ, suc, ◌*◌, ◌<◌, ◌≤◌}
use signalmesh.Base.Tests.{ltb}
use signalmesh.Base.Int.{ℤ, pos}
use mathlib.Core.Path.{◌≡◌}
use mathlib.Core.Bool.{Bool, true, false}

pub record Float64 (F : Type 0) : Type 0 where
  -- `lit m k` is the constant m / 10 ^ k.
  pub lit : ℕ → ℕ → F
  pub neg : F → F
  pub add : F → F → F
  pub sub : F → F → F
  pub mul : F → F → F
  pub div : F → F → F
  pub lt : F → F → Bool
  pub le : F → F → Bool
  pub eq : F → F → Bool
  pub max_float : F
  -- `float64(n)`, and `int(x)`, which cuts off the fraction.
  pub of_int : ℤ → F
  pub to_int : F → ℤ

module _ {F : Type 0} ⦃fl : Float64 F⦄ where
  abbrev pub lit : ℕ → ℕ → F
  lit = fl.lit

  abbrev pub flt : F → F → Bool
  flt = fl.lt

  abbrev pub fle : F → F → Bool
  fle = fl.le

  abbrev pub feq : F → F → Bool
  feq = fl.eq

  abbrev pub fadd : F → F → F
  fadd = fl.add

  abbrev pub fsub : F → F → F
  fsub = fl.sub

  abbrev pub fmul : F → F → F
  fmul = fl.mul

  abbrev pub fdiv : F → F → F
  fdiv = fl.div

  abbrev pub fneg : F → F
  fneg = fl.neg

  abbrev pub max_float : F
  max_float = fl.max_float

  abbrev pub of_int : ℤ → F
  of_int = fl.of_int

  abbrev pub to_int : F → ℤ
  to_int = fl.to_int

pub record FloatOrder (F : Type 0) ⦃fl : Float64 F⦄ : Type 0 where
  pub lt_trans : (a b c : F) → fl.lt a b ≡ true → fl.lt b c ≡ true → fl.lt a c ≡ true
  pub lt_irrefl : (a : F) → fl.lt a a ≡ false

-- Laws that IEEE 754 gives for integers that are represented exactly: constants multiply and compare
-- as the integers do, x / x is 1 and 0 / x is 0.
pub record FloatRatios (F : Type 0) ⦃fl : Float64 F⦄ : Type 0 where
  pub div_self :
      (n : ℕ)
      → n < 9007199254740991
      → fl.div (fl.of_int (pos (suc n))) (fl.of_int (pos (suc n))) ≡ fl.lit 1 0
  pub div_zero :
      (n : ℕ)
      → n < 9007199254740991
      → fl.div (fl.of_int (pos 0)) (fl.of_int (pos (suc n))) ≡ fl.lit 0 0
  pub mul_lit :
      (a b : ℕ) → a * b < 9007199254740992 → fl.mul (fl.lit a 0) (fl.lit b 0) ≡ fl.lit (a * b) 0
  pub lt_lit :
      (a b : ℕ)
      → a < 9007199254740992
      → b < 9007199254740992
      → fl.lt (fl.lit a 0) (fl.lit b 0) ≡ ltb a b

-- Constants of two decimals up to 1 compare as the integers do: rounding keeps their order.
pub record FloatCents (F : Type 0) ⦃fl : Float64 F⦄ : Type 0 where
  pub lt_cents : (a b : ℕ) → a ≤ 100 → b ≤ 100 → fl.lt (fl.lit a 2) (fl.lit b 2) ≡ ltb a b
  pub zero : fl.lit 0 0 ≡ fl.lit 0 2
  pub one : fl.lit 1 0 ≡ fl.lit 100 2
