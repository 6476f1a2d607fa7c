-- ===== src/Proxy/Attempt.antt =====
-- services/signalmesh-node/internal/proxy/handler.go: one round of the loop of
-- `HandleChat`, stage by stage.
use signalmesh.Base.{ℕ, false, not, ◌&&◌, ◌||◌, none, some, List, [], ◌∷◌, ◌++◌, if◌then◌else◌}
use signalmesh.Base.Float.{Float64, lit, flt, fle}
use signalmesh.Providers.{ModelResponse}
use signalmesh.Breaker.{Breaker}
use signalmesh.Breaker
use signalmesh.LoopDetector.{Detector}
use signalmesh.LoopDetector
use signalmesh.Budget.{Manager}
use signalmesh.Budget
use signalmesh.Router.{ProviderEntry, Decision, Sources, Selection, select}
use signalmesh.Validator.{Result, validate, default_contract}
use signalmesh.Reasons.{Reason, Phase}
use signalmesh.Proxy.State.{Node, write, Generated, Round, Context, FailureState, Verdict}
use signalmesh.Proxy.Failure.{has_cost_reason, fail_with, on_breaker}

module _ {F : Type 0} ⦃fl : Float64 F⦄ where
  -- The zero value of `validator.Result`.
  abbrev pub no_validation : Result F
  no_validation = record { valid = false; score = lit 0 0; reason_codes = [] }

  -- `Select` found no provider.
  unfoldable pub on_no_provider :
      Context F → Round F → ℕ → F → Decision F → Node F → Node F × Verdict F
  on_no_provider c r attempt remaining d n =
      let spent = has_cost_reason d || fle remaining (lit 0 0) in
      fail_with c r none
        (record {
          phase = if spent then Phase.budget else Phase.no_provider;
          provider = "";
          attempt = attempt;
          validation = no_validation;
          decision = some d;
          reason_codes =
              if spent then d.reason_codes ++ Reason.budget_exhausted ∷ [] else d.reason_codes;
        })
        n

  -- A failure of the selected provider, with the codes that it adds to the decision's.
  abbrev pub failure :
      ℕ → ProviderEntry F → Decision F → Phase → Result F → List Reason → FailureState F
  failure attempt e d phase validation codes = record {
    phase = phase;
    provider = e.provider;
    attempt = attempt;
    validation = validation;
    decision = some d;
    reason_codes = d.reason_codes ++ codes;
  }

  -- The breaker notes the failure first.
  unfoldable pub failed_call :
      Context F → Round F → ProviderEntry F → FailureState F → Node F → Node F × Verdict F
  failed_call c r e f n =
      fail_with c r (some e) f (on_breaker Breaker.record_failure e r.outcome_at n)

  -- The response passed every test.
  unfoldable pub accept :
      Context F
      → Round F
      → ProviderEntry F
      → Decision F
      → ModelResponse F
      → Node F
      → Node F × Verdict F
  accept c r e d resp n =
      let n' = on_breaker Breaker.record_success e r.outcome_at n in
      (
        record n' {
          detector = LoopDetector.record_success n.detector c.fingerprint;
          budgets = Budget.record_cost n.budgets c.req.agent_id resp.estimated_cost;
        },
        Verdict.accepted resp
            (record d { reason_codes = d.reason_codes ++ Reason.policy_accepted ∷ [] }),
      )

  unfoldable pub on_response :
      Context F
      → Round F
      → ℕ
      → ProviderEntry F
      → Decision F
      → ModelResponse F
      → Node F
      → Node F × Verdict F
  on_response c r attempt e d resp n =
      let v = validate c.decode resp.content default_contract in
      if not v.valid
      then failed_call c r e
          (failure attempt e d Phase.semantic v
            (Reason.semantic_validation_failed ∷ v.reason_codes))
          n
      else if flt v.score c.pol.minimum_quality_score
      then failed_call c r e
          (failure attempt e d Phase.quality v (Reason.quality_below_threshold ∷ [])) n
      else if flt (lit 0 0) c.pol.max_cost_usd && flt c.pol.max_cost_usd resp.estimated_cost
      then failed_call c r e (failure attempt e d Phase.cost v (Reason.cost_budget_exceeded ∷ [])) n
      else accept c r e d resp n

  unfoldable pub on_generated :
      Context F
      → Round F
      → ℕ
      → ProviderEntry F
      → Decision F
      → Generated F
      → Node F
      → Node F × Verdict F
  on_generated c r attempt e d (Generated.response resp) n = on_response c r attempt e d resp n
  on_generated c r attempt e d Generated.deadline_exceeded n =
      failed_call c r e
        (failure attempt e d Phase.timeout no_validation (Reason.provider_generation_error ∷ [])) n
  on_generated c r attempt e d Generated.generation_error n =
      failed_call c r e
        (failure attempt e d Phase.generation no_validation (Reason.provider_generation_error ∷ []))
        n

  -- `Select` found a provider: its breaker is asked, then the provider.
  unfoldable pub on_selected :
      Context F → Round F → ℕ → ProviderEntry F → Decision F → Node F → Node F × Verdict F
  on_selected c r attempt e d n =
      let (b, allowed) = Breaker.allow (n.breakers e.breaker) r.allow_now r.allow_at in
      let n' = record n { breakers = write n.breakers e.breaker b } in
      if allowed
      then on_generated c r attempt e d (r.generate e) n'
      else fail_with c r (some e)
          (failure attempt e d Phase.circuit no_validation (Reason.circuit_breaker_rejected ∷ []))
          n'

  unfoldable pub on_selection :
      Context F → Round F → ℕ → F → Selection F → Node F → Node F × Verdict F
  on_selection c r attempt remaining (Selection.selected e d) n = on_selected c r attempt e d n
  on_selection c r attempt remaining (Selection.failed d) n =
      on_no_provider c r attempt remaining d n
  on_selection c r attempt remaining Selection.crashed n = (n, Verdict.panicked)

  abbrev pub sources : Round F → Node F → Sources F
  sources r n = record {
    available = λ e. Breaker.available (n.breakers e.breaker) (r.available_now e);
    get_health = r.get_health;
    health_source = r.health_source;
  }

  -- One round of the loop of `HandleChat`.
  unfoldable pub attempt_once : Context F → Round F → ℕ → Node F → Node F × Verdict F
  attempt_once c r attempt n =
      let remaining = Budget.remaining n.budgets c.req.agent_id in
      on_selection c r attempt remaining (select (sources r n) c.pol remaining n.entries) n
