-- ===== src/Router.antt =====
-- services/signalmesh-node/internal/router/router.go: the choice of a provider by score. The lock
-- makes `Select` one step. What it reads of other components comes in as `Sources`: the breakers'
-- answers to `Available`, for each entry at its own reading of the clock, the providers' own health, and the cluster's, if there is a source of it.
pub mod Gates
pub mod Best
pub mod Choice
use signalmesh.Base.{
  ℕ, ◌+◌, Bool, true, false, not, ◌&&◌, Option, none, some, List, [], ◌∷◌, ◌++◌, String, length,
  get_elem?, str_eq, if◌then◌else◌,
}
use signalmesh.Base.Int.{ℤ, pos, ltb_ℤ}
use signalmesh.Base.Float.{Float64, lit, flt, fle, feq, fadd, fsub, fmul, fdiv, fneg}
use signalmesh.Providers.{ProviderHealth}
use signalmesh.Policy.{Policy, RiskLevel, is_high}
use signalmesh.Reasons.{Reason}

-- A provider is known by its name, its breaker by an address in the node's memory.
pub record ProviderEntry (F : Type 0) : Type 0 where
  pub provider : String
  pub breaker : ℕ
  pub is_fallback : Bool
  pub priority : ℕ
  pub cost_usd : F

pub record ProviderEvaluation (F : Type 0) : Type 0 where
  pub provider : String
  pub allowed : Bool
  pub score : F
  pub reason_codes : List Reason

pub record Decision (F : Type 0) : Type 0 where
  pub selected_provider : String
  pub fallback_used : Bool
  pub reason_codes : List Reason
  pub evaluations : List (ProviderEvaluation F)

-- The `HealthSource` may be nil.
pub record Sources (F : Type 0) : Type 0 where
  pub available : ProviderEntry F → Bool
  pub get_health : String → ProviderHealth F
  pub health_source : Option (String → ProviderHealth F)

-- `crashed` is the panic of an index out of range.
pub data Selection (F : Type 0) : Type 0 where
  selected : ProviderEntry F → Decision F → Selection F
  failed : Decision F → Selection F
  crashed : Selection F

-- `AddProviderWithCost`.
unfoldable pub add_provider_with_cost :
    {F : Type 0} → List (ProviderEntry F) → String → ℕ → Bool → F → List (ProviderEntry F)
add_provider_with_cost entries p breaker is_fallback cost =
    entries
    ++ record {
      provider = p;
      breaker = breaker;
      is_fallback = is_fallback;
      priority = length entries;
      cost_usd = cost;
    }
      ∷ []

named : {F : Type 0} → String → ProviderHealth F → ProviderHealth F
named name h = if str_eq h.provider_name "" then record h { provider_name = name } else h

reported :
    {F : Type 0} → Option (String → ProviderHealth F) → String → ProviderHealth F → ProviderHealth F
reported none name own = own
reported (some source) name own = source name

-- The health that counts for an entry.
unfoldable pub health_of : {F : Type 0} → Sources F → String → ProviderHealth F
unfolding named reported
health_of s name = named name (reported s.health_source name (s.get_health name))

-- The score so far and the reason codes.
abbrev pub Tally : Type 0 → Type 0
Tally F = F × List Reason

-- The best index and score of the loop, `none` for the index -1.
abbrev pub Best : Type 0 → Type 0
Best F = Option ℕ × F

module _ {F : Type 0} ⦃fl : Float64 F⦄ where
  clamp_availability : F → F
  clamp_availability a =
      let low = if flt a (lit 0 0) then lit 0 0 else a in if flt (lit 1 0) low then lit 1 0 else low

  latency_component : Policy F → ProviderHealth F → Tally F → Tally F
  latency_component pol h (score, rs) =
      if ltb_ℤ (pos 0) pol.max_latency_ms && ltb_ℤ pol.max_latency_ms h.p95_latency_ms
      then (fsub score (lit 20 0), rs ++ Reason.p95_latency_exceeded ∷ [])
      else (fadd score (lit 20 0), rs)

  status_component : ProviderHealth F → Tally F → Tally F
  status_component h (score, rs) =
      if str_eq h.status "HEALTHY"
      then (fadd score (lit 25 0), rs)
      else if str_eq h.status "DEGRADED"
      then (fadd score (lit 5 0), rs ++ Reason.provider_degraded ∷ [])
      else (score, rs ++ Reason.provider_health_unknown ∷ [])

  contract_component : ProviderHealth F → Tally F → Tally F
  contract_component h (score, rs) =
      if flt (lit 0 0) h.contract_failure_pct
      then (
        fsub score (fmul h.contract_failure_pct (lit 4 1)),
        (if flt (lit 10 0) h.contract_failure_pct
            then rs ++ Reason.contract_failure_rate_high ∷ []
            else rs),
      )
      else (score, rs)

  cost_component : Policy F → ProviderEntry F → Tally F → Tally F
  cost_component pol e (score, rs) =
      if feq e.cost_usd (lit 0 0)
      then (fadd score (lit 10 0), rs ++ Reason.zero_cost_provider ∷ [])
      else if flt (lit 0 0) pol.max_cost_usd && fle e.cost_usd pol.max_cost_usd
      then (fadd score (lit 5 0), rs ++ Reason.within_request_budget ∷ [])
      else (score, rs)

  fallback_component : Policy F → ProviderEntry F → Tally F → Tally F
  fallback_component pol e (score, rs) =
      if e.is_fallback
      then (if is_high pol.risk_level
          then (
            fsub (fsub score (lit 5 0)) (lit 15 0),
            rs ++ Reason.high_risk_fallback_penalty ∷ [],
          )
          else (fsub score (lit 5 0), rs))
      else (score, rs)

  unfoldable pub tally : Policy F → ProviderEntry F → ProviderHealth F → Tally F
  unfolding clamp_availability latency_component status_component contract_component cost_component
      fallback_component
  tally pol e h =
      let start =
        fadd (lit 0 0)
          (fmul (clamp_availability (fdiv h.availability_pct (lit 100 0))) (lit 40 0)) in
      fallback_component pol e (
        cost_component pol e
          (contract_component h (status_component h (latency_component pol h (start, [])))))

  excluded : ProviderEntry F → Reason → ProviderEvaluation F
  excluded e r = record {
    provider = e.provider;
    allowed = false;
    score = lit 0 0;
    reason_codes = r ∷ [];
  }

  scored : ProviderEntry F → Tally F → ProviderEvaluation F
  scored e (score, rs) = record {
    provider = e.provider;
    allowed = true;
    score = score;
    reason_codes = rs;
  }

  -- One round of the loop of `Select`.
  unfoldable pub evaluate : Sources F → Policy F → F → ProviderEntry F → ProviderEvaluation F
  unfolding excluded scored
  evaluate s pol remaining e =
      let h = health_of s e.provider in
      if not (s.available e)
      then excluded e Reason.circuit_not_available
      else if e.is_fallback && not pol.allow_local_fallback
      then excluded e Reason.fallback_not_allowed_by_policy
      else if str_eq h.status "UNHEALTHY"
      then excluded e Reason.provider_unhealthy
      else if flt remaining (lit 0 0) && flt (lit 0 0) e.cost_usd
      then excluded e Reason.remaining_budget_negative
      else if fle (lit 0 0) remaining && flt remaining e.cost_usd
      then excluded e Reason.provider_cost_exceeds_remaining_budget
      else if flt (lit 0 0) pol.max_cost_usd && flt pol.max_cost_usd e.cost_usd
      then excluded e Reason.estimated_cost_exceeds_request_budget
      else scored e (tally pol e h)

  abbrev better : ProviderEvaluation F → Best F → Bool
  better v b = v.allowed && flt b.1 v.score

  unfoldable pub select_loop :
      Sources F
      → Policy F
      → F
      → List (ProviderEntry F)
      → ℕ
      → Best F
      → List (ProviderEvaluation F)
      → (Best F) × List (ProviderEvaluation F)
  select_loop s pol remaining [] i b evals = (b, evals)
  select_loop s pol remaining (e ∷ es) i b evals =
      let v = evaluate s pol remaining e in
      select_loop s pol remaining es (i + 1) (if better v b then (some i, v.score) else b)
        (evals ++ v ∷ [])

  decide :
      Option (ProviderEntry F)
      → Option (ProviderEvaluation F)
      → List (ProviderEvaluation F)
      → Selection F
  decide (some e) (some v) evals = Selection.selected e (record {
    selected_provider = e.provider;
    fallback_used = e.is_fallback;
    reason_codes = Reason.routing_score_selected ∷ v.reason_codes;
    evaluations = evals;
  })
  decide _ _ evals = Selection.crashed

  refusal : Reason → List (ProviderEvaluation F) → Selection F
  refusal r evals = Selection.failed (record {
    selected_provider = "";
    fallback_used = false;
    reason_codes = r ∷ [];
    evaluations = evals;
  })

  conclude : List (ProviderEntry F) → (Best F) × List (ProviderEvaluation F) → Selection F
  unfolding decide refusal
  conclude entries ((none, score), evals) = refusal Reason.no_provider_available evals
  conclude entries ((some i, score), evals) = decide (get_elem? entries i) (get_elem? evals i) evals

  unfoldable pub select : Sources F → Policy F → F → List (ProviderEntry F) → Selection F
  unfolding conclude refusal
  select s pol remaining [] = refusal Reason.no_providers_registered []
  select s pol remaining (e ∷ es) =
      conclude (e ∷ es) (select_loop s pol remaining (e ∷ es) 0 (none, fneg (lit 1000000000 0)) [])
