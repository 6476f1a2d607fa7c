-- ===== src/Examples/Cents.antt =====
-- A number type for the examples: fixed point with two decimals, in place of `float64`.
use signalmesh.Base.{ℕ, zero, suc, ◌*◌, false, arith, if◌then◌else◌}
use Prim.Native.Nat.{◌/◌}
use signalmesh.Base.Int.{ℤ, pos, pos_part, neg_part, sub_ℕ, ltb_ℤ, leb_ℤ, add_ℤ}
use signalmesh.Base.Float.{Float64, FloatOrder}

-- Hundredths.
pub record Cents : Type 0 where
  pub hundredths : ℤ

abbrev pub cents : ℤ → Cents
cents n = record { hundredths = n }

abbrev negate : ℤ → ℤ
negate z = sub_ℕ (neg_part z) (pos_part z)

-- The difference of p and q with each multiplied and divided.
abbrev scale : (ℕ → ℕ) → ℤ → ℤ
scale f z = sub_ℕ (f (pos_part z)) (f (neg_part z))

abbrev power : ℕ → ℕ
power zero = 1
power (suc k) = 10 * power k

instance abbrev pub cents_float : Float64 Cents
cents_float = record {
  lit = λ m k. cents (pos (m * 100 / power k));
  neg = λ a. cents (negate a.hundredths);
  add = λ a b. cents (add_ℤ a.hundredths b.hundredths);
  sub = λ a b. cents (add_ℤ a.hundredths (negate b.hundredths));
  mul = λ a b. cents (scale (λ n. n * pos_part b.hundredths / 100) a.hundredths);
  div = λ a b. cents (scale (λ n. n * 100 / pos_part b.hundredths) a.hundredths);
  lt = λ a b. ltb_ℤ a.hundredths b.hundredths;
  le = λ a b. leb_ℤ a.hundredths b.hundredths;
  eq = λ a b. if leb_ℤ a.hundredths b.hundredths then leb_ℤ b.hundredths a.hundredths else false;
  max_float = cents (pos 1000000000000);
  of_int = λ n. cents (scale (λ k. k * 100) n);
  to_int = λ a. scale (λ n. n / 100) a.hundredths;
}

pub cents_order : FloatOrder Cents
cents_order = record { lt_trans = λ a b c p q. ground arith; lt_irrefl = λ a. ground arith }
