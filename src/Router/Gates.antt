-- ===== src/Router/Gates.antt =====
-- Which providers the router may choose at all.
use signalmesh.Base.{◌≡◌, ◌≢◌, ◌↔◌, true, false, arith, eq_iff}
use signalmesh.Base.Float.{Float64, lit, flt, fle}
use signalmesh.Policy.{Policy}
use signalmesh.Router.{ProviderEntry, Sources, health_of, evaluate}

module _ {F : Type 0} ⦃fl : Float64 F⦄ where
  -- What a provider must meet to be scored.
  pub record IsAdmissible (s : Sources F) (pol : Policy F) (remaining : F) (e : ProviderEntry F)
      : Type 0 where
    pub reachable : s.available e ≡ true
    pub trusted : e.is_fallback ≡ true → pol.allow_local_fallback ≡ true
    pub not_unhealthy : (health_of s e.provider).status ≢ "UNHEALTHY"
    pub free_if_overdrawn : flt remaining (lit 0 0) ≡ true → flt (lit 0 0) e.cost_usd ≡ false
    pub within_remaining : fle (lit 0 0) remaining ≡ true → flt remaining e.cost_usd ≡ false
    pub within_request :
        flt (lit 0 0) pol.max_cost_usd ≡ true → flt pol.max_cost_usd e.cost_usd ≡ false

  -- A provider is allowed exactly when its breaker is available, a fallback is permitted if it is
  -- one, its health is not UNHEALTHY, and its cost is covered by the remaining budget and by the
  -- request's own bound (where there is one).
  pub allowed_iff :
      (s : Sources F) (pol : Policy F) (remaining : F) (e : ProviderEntry F)
      → ((evaluate s pol remaining e).allowed ≡ true) ↔ IsAdmissible s pol remaining e
  unfolding evaluate
  allowed_iff s pol remaining e = (
    λ h. ground (arith, eq_iff (health_of s e.provider).status "UNHEALTHY"),
    λ h. ground (arith, eq_iff (health_of s e.provider).status "UNHEALTHY"),
  )
