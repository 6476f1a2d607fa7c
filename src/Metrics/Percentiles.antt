-- ===== src/Metrics/Percentiles.antt =====
-- The percentiles are read in range and in order.
use signalmesh.Base.{
  ℕ, suc, ◌-◌, ◌≤◌, ◌≡◌, refl, ap, ◌∙◌, Option, some, List, [], ◌∷◌, arith, length, get_elem?,
  if◌then◌else◌,
}
use signalmesh.Base.Int.{ℤ, pos, negsuc, pos_part, leb_ℤ, ◌≤ℤ◌}
use signalmesh.Base.Clock.{Duration, milliseconds}
use signalmesh.Base.Float.{Float64, lit, fmul, fdiv, of_int, to_int}
use signalmesh.Base.Sorting.{
  sort, IsSorted, sort-IsSorted, length-sort, at_index, clamp, get_within, get_mono,
}
use signalmesh.Metrics.{at_least_zero, percentile, percentiles_of, percentiles}

-- The rank that is read for an index before it is cut off.
rank : ℕ → ℤ → ℕ
rank n z = if leb_ℤ (pos n) z then n - 1 else pos_part z

rank_lem : (n : ℕ) (z : ℤ) → at_least_zero (clamp (suc n) z) ≡ pos (rank (suc n) z)
unfolding rank
rank_lem n (pos i) = ground arith
rank_lem n (negsuc i) = ground arith

rank-lt : (n : ℕ) (z : ℤ) → suc (rank (suc n) z) ≤ suc n
unfolding rank
rank-lt n (pos i) = ground arith
rank-lt n (negsuc i) = ground arith

rank_mono : (n : ℕ) (z w : ℤ) → z ≤ℤ w → rank (suc n) z ≤ rank (suc n) w
unfolding rank
rank_mono n (pos i) (pos j) h = ground arith
rank_mono n (pos i) (negsuc j) h = ground arith
rank_mono n (negsuc i) (pos j) h = ground arith
rank_mono n (negsuc i) (negsuc j) h = ground arith

milliseconds_mono : (a b : Duration) → a ≤ℤ b → milliseconds a ≤ℤ milliseconds b
milliseconds_mono (pos a) (pos b) h = ground arith
milliseconds_mono (pos a) (negsuc b) h = absurd (omega arith)
milliseconds_mono (negsuc a) (pos b) h = ground arith
milliseconds_mono (negsuc a) (negsuc b) h = ground arith

-- The index of a percentage in a list of some length, before it is cut off.
abbrev pub cut : (F : Type 0) ⦃fl : Float64 F⦄ → ℕ → ℕ → ℤ
cut F p n = to_int (fmul (fdiv (lit {F = F} p 0) (lit 100 0)) (of_int (pos n)))

-- What IEEE 754 gives, whose operations round without changing an order, for the length of any
-- slice, which is below 2 ^ 63: a larger percentage of a length is no smaller an index. No list of
-- the program is longer, so the law is not restricted to those lengths.
pub record IsRanked (F : Type 0) ⦃fl : Float64 F⦄ : Type 0 where
  pub half_below : (n : ℕ) → cut F 50 n ≤ℤ cut F 95 n
  pub most_below : (n : ℕ) → cut F 95 n ≤ℤ cut F 99 n

-- Three numbers that are reported, in order.
pub record IsOrdered (r : Option (ℤ × ℤ × ℤ)) : Type 0 where
  pub p50 : ℤ
  pub p95 : ℤ
  pub p99 : ℤ
  pub reported : r ≡ some (p50, p95, p99)
  pub half : p50 ≤ℤ p95
  pub most : p95 ≤ℤ p99

ranked :
    (F : Type 0) ⦃fl : Float64 F⦄ (p n : ℕ) (xs : List ℤ)
    → length xs ≡ suc n
    → percentile (lit {F = F} p 0) xs ≡ get_elem? xs (rank (suc n) (cut F p (suc n)))
unfolding percentile
ranked F p n xs l =
    ap (λ m. at_index xs (at_least_zero (clamp m (cut F p m)))) l
    ∙ ap (at_index xs) (rank_lem n (cut F p (suc n)))

ordered :
    (F : Type 0) ⦃fl : Float64 F⦄ (law : IsRanked F) (n : ℕ) (xs : List ℤ)
    → length xs ≡ suc n
    → IsSorted xs
    → IsOrdered (percentiles_of F xs)
unfolding percentiles_of
ordered F law n xs l s =
    let at = λ (p : ℕ). rank (suc n) (cut F p (suc n)) in
    let (a, ea) = get_within xs (at 50) (omega (arith, l, rank-lt n (cut F 50 (suc n)))) in
    let (b, eb) = get_within xs (at 95) (omega (arith, l, rank-lt n (cut F 95 (suc n)))) in
    let (c, ec) = get_within xs (at 99) (omega (arith, l, rank-lt n (cut F 99 (suc n)))) in
    let ab = get_mono xs (at 50) (at 95) a b s (rank_mono n _ _ (law.half_below (suc n))) ea eb in
    let bc = get_mono xs (at 95) (at 99) b c s (rank_mono n _ _ (law.most_below (suc n))) eb ec in
    record {
      p50 = milliseconds a;
      p95 = milliseconds b;
      p99 = milliseconds c;
      reported =
          rw (ranked F 50 n xs l ∙ ea, ranked F 95 n xs l ∙ eb, ranked F 99 n xs l ∙ ec) refl;
      half = milliseconds_mono a b ab;
      most = milliseconds_mono b c bc;
    }

-- Percentiles reads no index out of range, and reports p50, p95 and p99 in this order, for any
-- latencies.
pub percentiles-IsOrdered :
    (F : Type 0) ⦃fl : Float64 F⦄ (law : IsRanked F) (ds : List Duration)
    → IsOrdered (percentiles F ds)
unfolding percentiles
percentiles-IsOrdered F law [] = record {
  p50 = pos 0;
  p95 = pos 0;
  p99 = pos 0;
  reported = refl;
  half = omega arith;
  most = omega arith;
}
percentiles-IsOrdered F law (d ∷ ds) =
    ordered F law (length ds) (sort (d ∷ ds)) (length-sort (d ∷ ds)) (sort-IsSorted (d ∷ ds))
