-- ===== src/Bench/Summary.antt =====
-- cmd/signalmesh-bench/main.go: the percentiles and the average of the latencies.
use signalmesh.Base.{
  ℕ, suc, ◌+◌, ◌*◌, ◌/◌, ◌≤◌, ◌<◌, ◌≡◌, refl, ap, All, ◌∙◌, List, [], ◌∷◌, Option, some, length,
  arith,
}
use native.Mathlib.Nat.{div-le_of_le-mul, mul_comm}
use signalmesh.Base.Int.{ℤ, pos, negsuc, pos_part, neg_part, sub_ℕ, add_ℤ, wrap64}
use signalmesh.Base.Clock.{Duration}
use signalmesh.Base.Sorting.{clamp, at_index, at_index-clamp}
use signalmesh.Metrics.{at_least_zero}

-- `percentile`, given the rank that `math.Ceil` yields for a length; `none` would be a panic.
unfoldable percentile : (ℕ → ℤ) → List Duration → Option Duration
percentile ceiling [] = some (pos 0)
percentile ceiling (d ∷ ds) =
    let n = length (d ∷ ds) in
    at_index (d ∷ ds) (clamp n (at_least_zero (add_ℤ (ceiling n) (negsuc 0))))

-- The sum of the loop of `average`, on 64 bits.
unfoldable total_of : Duration → List Duration → Duration
total_of t [] = t
total_of t (d ∷ ds) = total_of (wrap64 (add_ℤ t d)) ds

abbrev quotient : ℤ → ℕ → ℤ
quotient t n = sub_ℕ (pos_part t / n) (neg_part t / n)

unfoldable average : List Duration → Duration
average [] = pos 0
average (d ∷ ds) = quotient (total_of (pos 0) (d ∷ ds)) (length (d ∷ ds))

-- No percentile reads an index out of range.
percentile_total :
    (ceiling : ℕ → ℤ) (ds : List Duration) → (d : Duration) × (percentile ceiling ds ≡ some d)
unfolding percentile
percentile_total ceiling [] = (pos 0, refl)
percentile_total ceiling (d ∷ ds) =
    at_index-clamp (d ∷ ds) (length ds)
      (at_least_zero (add_ℤ (ceiling (length (d ∷ ds))) (negsuc 0))) refl

-- A latency that is not negative and at most b.
abbrev IsUpTo : ℕ → Duration → Type 0
IsUpTo b (pos n) = n ≤ b
IsUpTo b (negsuc n) = ⊥

-- Below 2 ^ 63 nothing wraps.
adds : (t n : ℕ) → t + n < 9223372036854775808 → wrap64 (add_ℤ (pos t) (pos n)) ≡ pos (t + n)
adds t n small = ground arith

-- A sum of naturals that b bounds.
record IsSum (b t k : ℕ) (total : ℤ) : Type 0 where
  value : ℕ
  is : total ≡ pos value
  bounded : value ≤ t + b * k

total-IsSum :
    (b t : ℕ) (ds : List Duration)
    → All (IsUpTo b) ds
    → t + b * length ds < 9223372036854775808
    → IsSum b t (length ds) (total_of (pos t) ds)
unfolding total_of
total-IsSum b t [] h small = record { value = t; is = refl; bounded = omega arith }
total-IsSum b t (pos n ∷ ds) h small =
    let grows : b * suc (length ds) ≡ b + b * length ds = omega arith in
    let r = total-IsSum b (t + n) ds h.1 (omega (arith, small, h.0, grows)) in
    record {
      value = r.value;
      is = ap (λ x. total_of x ds) (adds t n (omega (arith, small, h.0, grows))) ∙ r.is;
      bounded = omega (arith, r.bounded, h.0, grows);
    }
total-IsSum b t (negsuc n ∷ ds) h small = absurd h.0

keeps : (x z : ℕ) → z ≤ 0 → sub_ℕ x z ≡ pos x
keeps x z none = ground (arith, none)

quotient-IsUpTo : (b v n : ℕ) → v ≤ suc n * b → IsUpTo b (quotient (pos v) (suc n))
quotient-IsUpTo b v n bounded =
    rw (keeps (v / suc n) (0 / suc n) (div-le_of_le-mul (suc n) (omega arith)))
      (div-le_of_le-mul (suc n) bounded)

-- Latencies that are not negative and at most b, whose number times b is below 2 ^ 63, have an
-- average that is not negative and at most b.
average-IsUpTo :
    (b : ℕ) (ds : List Duration)
    → All (IsUpTo b) ds
    → b * length ds < 9223372036854775808
    → IsUpTo b (average ds)
unfolding average
average-IsUpTo b [] h small = omega arith
average-IsUpTo b (d ∷ ds) h small =
    let r = total-IsSum b 0 (d ∷ ds) h (omega (arith, small)) in
    rw r.is (
      quotient-IsUpTo b r.value (length ds)
        (omega (arith, r.bounded, mul_comm b (suc (length ds)))))
