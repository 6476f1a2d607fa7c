-- ===== src/Policy/Bounds.antt =====
-- What every policy of a request satisfies, and when its deadline is the intended one.
use signalmesh.Base.{ℕ, ◌*◌, ◌≤◌, ◌<◌, ◌≡◌, suc, inl, inr, Option-cases, false, Option, some, arith}
use mathlib.Core.Option
use signalmesh.Base.Int.{pos, ◌<ℤ◌, ◌≤ℤ◌}
use signalmesh.Base.Clock.{millisecond}
use signalmesh.Base.Float.{Float64, FloatOrder, lit, flt}
use signalmesh.Providers.{ModelRequest, RequestPolicy}
use signalmesh.Policy.{given, Policy, normalize_risk, default_policy, from_request, deadline}

-- What the request itself asks for, if it does.
abbrev pub asked : {F A : Type 0} → ModelRequest F → (RequestPolicy F → Option A) → Option A
asked req field = Option.bind req.policy field

module _ {F : Type 0} ⦃fl : Float64 F⦄ where
  pub record IsNormal (p : Policy F) : Type 0 where
    pub latency_pos : pos 0 <ℤ p.max_latency_ms
    pub retries_nonneg : pos 0 ≤ℤ p.max_retries
    pub quality_nonneg : flt p.minimum_quality_score (lit 0 0) ≡ false

  -- Whatever a request asks for, its policy has a positive latency bound, no negative number of
  -- retries and no negative quality score.
  pub from_request-IsNormal : FloatOrder F → (req : ModelRequest F) → IsNormal (from_request req)
  unfolding from_request
  from_request-IsNormal o req = record {
    latency_pos = ground arith;
    retries_nonneg = ground arith;
    quality_nonneg = ground (arith, o.lt_irrefl (lit 0 0));
  }

  -- The flags of a policy and the cost bound are those that the request asks for, and else those of
  -- its risk level; a positive latency bound and a number of retries that is not negative are kept
  -- too.
  from_request-asked :
      (req : ModelRequest F) (n : ℕ)
      → let p = from_request req in
        let d = default_policy {F = F} (normalize_risk req.risk_level) in
        (p.allow_local_fallback
          ≡ given (asked req (λ r. r.allow_local_fallback)) d.allow_local_fallback)
        × (p.idempotent ≡ given (asked req (λ r. r.idempotent)) d.idempotent)
        × (p.requires_human_on_failure
            ≡ given (asked req (λ r. r.requires_human_on_failure)) d.requires_human_on_failure)
        × (p.max_cost_usd ≡ given (asked req (λ r. r.max_cost_usd)) d.max_cost_usd)
        × (asked req (λ r. r.max_latency_ms) ≡ some (pos (suc n)) → p.max_latency_ms ≡ pos (suc n))
        × (asked req (λ r. r.max_retries) ≡ some (pos n) → p.max_retries ≡ pos n)
  unfolding from_request Option.bind
  from_request-asked req n = elim (Option-cases req.policy) [
    | inl e ↦ rw e (ground arith)
    | inr (r, e) ↦ rw e (ground arith)
  ]

  -- The deadline of a request is its latency bound as long as that is at most 9223372036854 ms,
  -- some 292 years.
  pub deadline_exact :
      (p : Policy F) (ms : ℕ)
      → p.max_latency_ms ≡ pos ms
      → 0 < ms
      → ms ≤ 9223372036854
      → deadline p ≡ pos (ms * millisecond)
  unfolding deadline
  deadline_exact p ms e l h = ground arith

  -- For a latency bound above 9223372036854 ms, up to 18446744073709 ms, the product overflows and
  -- the deadline is negative.
  pub deadline_overflows :
      (p : Policy F) (ms : ℕ)
      → p.max_latency_ms ≡ pos ms
      → 9223372036854 < ms
      → ms ≤ 18446744073709
      → deadline p <ℤ pos 0
  unfolding deadline
  deadline_overflows p ms e l h = ground arith
