-- ===== src/Health/Verdicts.antt =====
-- The status that a node gives to a provider after a probe.
use mathlib.Core.Option.{map as option_map}
use signalmesh.Base.{
  ◌-◌, ◌≤◌, ◌≡◌, refl, ap, ◌∙◌, Bool, true, false, Option, none, some, List, [], ◌∷◌, ◌++◌, String,
  All, All-append, All-get, arith, length, length-append, map,
}
use signalmesh.Base.Int.{ℤ, pos, negsuc, leb_ℤ, ltb_ℤ, ◌≤ℤ◌}
use signalmesh.Base.Clock.{Time, since, milliseconds}
use signalmesh.Base.Float.{Float64, FloatRatios, lit, to_int}
use signalmesh.Base.Sorting.{sort, All-sort, length-sort, at_index, at_index-clamp}
use signalmesh.Validator.{Decoder}
use signalmesh.Health.Windows.{
  count_none, count_all, All-window-drop, counted, results-record, few_counted,
}
use signalmesh.Health.{
  ProbeResult, Observer, ProbeRound, health_window, results_of, window, share_pct, probe_status,
  latency_p95, health_from, compute_health, is_valid, is_violation, probe_request, probed,
  probe_provider,
}

at_index-All :
    (P : ℤ → Type 0) (xs : List ℤ) (idx p : ℤ) → All P xs → at_index xs idx ≡ some p → P p
at_index-All P xs (pos i) p h e = All-get P xs i p h e
at_index-All P xs (negsuc i) p h e = All-get P xs (length xs - 1) p h e

All-latencies :
    (P : ℤ → Type 0) (rs : List ProbeResult)
    → All (λ r. P r.latency_ms) rs
    → All P (map (λ r. r.latency_ms) rs)
All-latencies P [] h = tt
All-latencies P (r ∷ rs) h = (h.0, All-latencies P rs h.1)

All-any : (rs : List ProbeResult) → All {0, 0} (λ r. Unit) rs
All-any [] = tt
All-any (r ∷ rs) = (tt, All-any rs)

-- A clean probe.
abbrev pub IsClean : ProbeResult → Type 0
IsClean r = (r.success ≡ true) × (r.contract_failure ≡ false) × (r.latency_ms ≤ℤ pos 1500)

All-imp :
    (P Q : ProbeResult → Type 0) (rs : List ProbeResult)
    → ((r : ProbeResult) → P r → Q r)
    → All P rs
    → All Q rs
All-imp P Q [] f h = tt
All-imp P Q (r ∷ rs) f h = (f r h.0, All-imp P Q rs f h.1)

module _ {F : Type 0} ⦃fl : Float64 F⦄ where
  share_none :
      (laws : FloatRatios F) (test : ProbeResult → Bool) (r : ProbeResult) (rs : List ProbeResult)
      → length rs ≤ 19
      → All (λ x. test x ≡ false) (r ∷ rs)
      → share_pct test (r ∷ rs) ≡ lit {F = F} 0 0
  unfolding share_pct
  share_none laws test r rs few h =
      rw (count_none test (r ∷ rs) h, laws.div_zero (length rs) (omega (arith, few)))
        (laws.mul_lit 0 100 (omega arith))

  share_all :
      (laws : FloatRatios F) (test : ProbeResult → Bool) (r : ProbeResult) (rs : List ProbeResult)
      → length rs ≤ 19
      → All (λ x. test x ≡ true) (r ∷ rs)
      → share_pct test (r ∷ rs) ≡ lit {F = F} 100 0
  unfolding share_pct
  share_all laws test r rs few h =
      rw (count_all test (r ∷ rs) h, laws.div_self (length rs) (omega (arith, few)))
        (laws.mul_lit 1 100 (omega arith))

  p95_within :
      (P : ℤ → Type 0) (cut : F → ℤ) (r : ProbeResult) (rs : List ProbeResult)
      → All (λ x. P x.latency_ms) (r ∷ rs)
      → (p : ℤ) × (latency_p95 cut (r ∷ rs) ≡ some p) × P p
  unfolding latency_p95
  p95_within P cut r rs h =
      let latencies = map (λ x. x.latency_ms) (r ∷ rs) in
      let (p, e) =
        at_index-clamp (sort latencies) (length (map (λ x. x.latency_ms) rs)) _
          (length-sort latencies) in
      (p, e, at_index-All P _ _ p (All-sort P latencies (All-latencies P (r ∷ rs) h)) e)

  health_from-status :
      (laws : FloatRatios F) (provider : String) (now : Time) (r : ProbeResult)
      (rs : List ProbeResult) (p : ℤ)
      → latency_p95 (to_int {F = F}) (r ∷ rs) ≡ some p
      → option_map (λ h. h.status) (health_from {F = F} provider now (r ∷ rs))
        ≡ some (
            probe_status
              (share_pct {F = F} (λ x. x.success) (r ∷ rs))
              (share_pct {F = F} (λ x. x.contract_failure) (r ∷ rs))
              p)
  unfolding health_from
  health_from-status laws provider now r rs p e = rw e refl

  -- The probes of a window all failed.
  failing_status :
      (laws : FloatRatios F) (provider : String) (now : Time) (rs : List ProbeResult)
      → 1 ≤ length rs
      → length rs ≤ 20
      → All (λ r. r.success ≡ false) rs
      → option_map (λ h. h.status) (health_from {F = F} provider now rs) ≡ some "UNHEALTHY"
  unfolding probe_status
  failing_status laws provider now [] some_ few h = absurd (omega arith)
  failing_status laws provider now (r ∷ rs) some_ few h =
      let (p, e, _) = p95_within (λ x. Unit) to_int r rs (All-any (r ∷ rs)) in
      health_from-status laws provider now r rs p e
      ∙ rw
          (
            share_none laws (λ x. x.success) r rs (omega (arith, few)) h,
            laws.lt_lit 0 50 (omega arith) (omega arith),
          )
          refl

  -- The probes of a window were all clean.
  clean_status :
      (laws : FloatRatios F) (provider : String) (now : Time) (rs : List ProbeResult)
      → 1 ≤ length rs
      → length rs ≤ 20
      → All IsClean rs
      → option_map (λ h. h.status) (health_from {F = F} provider now rs) ≡ some "HEALTHY"
  unfolding probe_status
  clean_status laws provider now [] some_ few h = absurd (omega arith)
  clean_status laws provider now (r ∷ rs) some_ few h =
      let (p, e, fast) =
        p95_within (λ x. x ≤ℤ pos 1500) to_int r rs
          (All-imp IsClean (λ x. x.latency_ms ≤ℤ pos 1500) (r ∷ rs) (λ x c. c.2) h) in
      let slow : ltb_ℤ (pos 1500) p ≡ false = ground arith in
      health_from-status laws provider now r rs p e
      ∙ rw
          (
            share_all laws (λ x. x.success) r rs (omega (arith, few))
                (All-imp IsClean (λ x. x.success ≡ true) (r ∷ rs) (λ x c. c.0) h),
            share_none laws (λ x. x.contract_failure) r rs (omega (arith, few))
                (All-imp IsClean (λ x. x.contract_failure ≡ false) (r ∷ rs) (λ x c. c.1) h),
            laws.lt_lit 100 50 (omega arith) (omega arith),
            laws.lt_lit 20 0 (omega arith) (omega arith),
            laws.lt_lit 100 95 (omega arith) (omega arith),
            laws.lt_lit 2 0 (omega arith) (omega arith),
            slow,
          )
          refl

  -- What a window of the latest results shows after a probe.
  probe-status :
      (P : ProbeResult → Type 0) (st : String) (decode : Decoder F) (o : Observer)
      (provider : String) (p : ProbeRound F)
      → ((rs : List ProbeResult)
          → 1 ≤ length rs
          → length rs ≤ 20
          → All P rs
          → option_map (λ h. h.status) (health_from {F = F} provider p.computed rs) ≡ some st)
      → leb_ℤ (since p.computed p.stamped) (pos health_window) ≡ true
      → P (probed decode p)
      → All P (window p.computed (results_of o provider))
      → option_map (λ h. h.status) (probe_provider decode o provider p).1 ≡ some st
  unfolding probe_provider compute_health counted probed
  probe-status P st decode o provider p sure fresh here before =
      let old = results_of o provider in
      let mine = probed decode p in
      let now = p.computed in
      ap (λ rs. option_map (λ h. h.status) (health_from {F = F} provider now rs))
        (results-record o provider mine now fresh)
      ∙ sure (counted now old ++ mine ∷ [])
          (omega (arith, length-append (counted now old) (mine ∷ [])))
          (omega (arith, length-append (counted now old) (mine ∷ []), few_counted now old))
          (All-append P (counted now old) (mine ∷ [])
            (All-window-drop P now (length old - 19) old before) (here, tt))

  -- A probe without a valid answer, after none but failed ones within the last 15 seconds, makes the
  -- provider UNHEALTHY.
  pub sees_outage :
      (laws : FloatRatios F) (decode : Decoder F) (o : Observer) (provider : String)
      (p : ProbeRound F)
      → leb_ℤ (since p.computed p.stamped) (pos health_window) ≡ true
      → is_valid decode (p.generate (probe_request p.request_id)) ≡ false
      → All (λ r. r.success ≡ false) (window p.computed (results_of o provider))
      → option_map (λ h. h.status) (probe_provider decode o provider p).1 ≡ some "UNHEALTHY"
  unfolding probed
  sees_outage laws decode o provider p fresh failed before =
      probe-status (λ r. r.success ≡ false) "UNHEALTHY" decode o provider p
        (failing_status laws provider p.computed) fresh failed before

  no_violation :
      (decode : Decoder F) (answer : Option String)
      → is_valid decode answer ≡ true
      → is_violation decode answer ≡ false
  no_violation decode none h = cc
  no_violation decode (some content) h = rw h refl

  -- A probe with a valid answer within 1500 ms, after none but clean ones within the last 15
  -- seconds, makes the provider HEALTHY, whatever was before.
  sees_recovery :
      (laws : FloatRatios F) (decode : Decoder F) (o : Observer) (provider : String)
      (p : ProbeRound F)
      → leb_ℤ (since p.computed p.stamped) (pos health_window) ≡ true
      → is_valid decode (p.generate (probe_request p.request_id)) ≡ true
      → milliseconds (since p.finished p.start) ≤ℤ pos 1500
      → All IsClean (window p.computed (results_of o provider))
      → option_map (λ h. h.status) (probe_provider decode o provider p).1 ≡ some "HEALTHY"
  unfolding probed
  sees_recovery laws decode o provider p fresh valid fast before =
      probe-status IsClean "HEALTHY" decode o provider p (clean_status laws provider p.computed)
        fresh (valid, no_violation decode _ valid, fast) before
