-- ===== src/Base/Clock.antt =====
-- Instants (`time.Time`) as nanoseconds since an epoch, and durations (`time.Duration`) as signed
-- nanoseconds. Each call of `time.Now` in the source is an argument of the model's function.
use signalmesh.Base.Int.{ℤ, sub_ℕ, pos_part, neg_part}
use Prim.Native.Nat.{ℕ, ◌/◌}

abbrev pub Time : Type 0
Time = ℕ

abbrev pub Duration : Type 0
Duration = ℤ

abbrev pub millisecond : ℕ
millisecond = 1000000

abbrev pub second : ℕ
second = 1000000000

-- `t.Sub(u)`, also `time.Since(u)` at the instant `t`; negative where `u` is later.
abbrev pub since : Time → Time → Duration
since t u = sub_ℕ t u

-- `d.Milliseconds()`, which cuts off toward 0.
abbrev pub milliseconds : Duration → ℤ
milliseconds d = sub_ℕ (pos_part d / millisecond) (neg_part d / millisecond)
