-- ===== src/Proxy/Failure.antt =====
-- services/signalmesh-node/internal/proxy/handler.go: `handleFailure`, `canRetry`,
-- `hasCostReason`, and what every failing path of the loop does.
use signalmesh.Base.{
  ℕ, Bool, true, false, not, ◌&&◌, ◌||◌, Option, none, some, List, [], ◌∷◌, ◌++◌, String,
  if◌then◌else◌,
}
use signalmesh.Base.Int.{ℤ, pos, negsuc, inc, add_ℤ, leb_ℤ, ltb_ℤ}
use signalmesh.Base.Clock.{Time}
use signalmesh.Policy.{Policy, is_high}
use signalmesh.Breaker.{Breaker}
use signalmesh.Breaker
use signalmesh.LoopDetector.{Detector}
use signalmesh.LoopDetector
use signalmesh.Router.{ProviderEntry, Decision, ProviderEvaluation}
use signalmesh.Incident.{Reporter, Meta, report}
use signalmesh.Incident
use signalmesh.Reasons.{Reason, Phase, phase_text}
use signalmesh.Proxy.State.{Node, write, Round, Context, FailureState, Verdict}

-- The phases after which `canRetry` never retries.
abbrev pub is_final : Phase → Bool
is_final Phase.budget = true
is_final Phase.cost = true
is_final Phase.no_provider = true
is_final Phase.circuit = true
is_final Phase.agent_loop = true
is_final _ = false

-- "timeout", "generation" or "semantic".
abbrev pub is_doubtful : Phase → Bool
is_doubtful Phase.timeout = true
is_doubtful Phase.generation = true
is_doubtful Phase.semantic = true
is_doubtful _ = false

abbrev pub is_cost_reason : Reason → Bool
is_cost_reason Reason.provider_cost_exceeds_remaining_budget = true
is_cost_reason Reason.estimated_cost_exceeds_request_budget = true
is_cost_reason Reason.remaining_budget_negative = true
is_cost_reason _ = false

unfoldable pub any_cost_reason : List Reason → Bool
any_cost_reason [] = false
any_cost_reason (r ∷ rs) = is_cost_reason r || any_cost_reason rs

unfoldable pub any_evaluation : {F : Type 0} → List (ProviderEvaluation F) → Bool
any_evaluation [] = false
any_evaluation (v ∷ vs) = any_cost_reason v.reason_codes || any_evaluation vs

unfoldable pub has_cost_reason : {F : Type 0} → Decision F → Bool
unfolding any_evaluation any_cost_reason
has_cost_reason d = any_evaluation d.evaluations

-- The reason that the loop detector keeps.
abbrev pub failure_reason : Phase → String
failure_reason Phase.unset = "unknown"
failure_reason p = phase_text p

module _ {F : Type 0} where
  unfoldable pub can_retry : Policy F → ℕ → ℤ → Phase → Time → Bool
  can_retry pol attempt deadline phase now =
      if leb_ℤ (inc pol.max_retries) (pos attempt)
      then false
      else if ltb_ℤ (add_ℤ deadline (negsuc 99999999)) (pos now)
      then false
      else if is_final phase
      then false
      else if is_high pol.risk_level && not pol.idempotent && is_doubtful phase
      then false
      else true

  unfoldable pub trip_entry : Node F → Option (ProviderEntry F) → Time → Node F
  trip_entry n none at = n
  trip_entry n (some e) at = record n {
    breakers = write n.breakers e.breaker (Breaker.trip (n.breakers e.breaker) at);
  }

  unfoldable pub report_loop : Context F → Round F → FailureState F → ℕ → Node F → Node F
  report_loop c r f count n = record n {
    reporter =
        report n.reporter r.incident Incident.Kind.agent_loop c.req.request_id c.req.agent_id
          f.provider Incident.Severity.critical "Agent loop detected"
          (Reason.agent_loop_detected ∷ [])
          (("task_type", Meta.text c.req.task_type)
            ∷ ("failure_phase", Meta.text (phase_text f.phase))
            ∷ ("count", Meta.decimal count)
            ∷ ("attempt", Meta.decimal f.attempt)
            ∷ []);
  }

  -- `handleFailure`; its argument `attempt` is the failure's own.
  unfoldable pub handle_failure :
      Context F → Round F → Option (ProviderEntry F) → FailureState F → Node F → Node F × Bool
  handle_failure c r entry f n =
      let (d, detected, count) =
        LoopDetector.record_failure n.detector c.fingerprint (failure_reason f.phase)
          r.failure_now in
      let n' = record n { detector = d } in
      if detected
      then (report_loop c r f count (trip_entry n' entry r.trip_at), true)
      else (n', false)

  -- What each failing path of the loop does with its `last`.
  unfoldable pub fail_with :
      Context F → Round F → Option (ProviderEntry F) → FailureState F → Node F → Node F × Verdict F
  fail_with c r entry f n =
      let (n', detected) = handle_failure c r entry f n in
      if detected
      then (
        n',
        Verdict.rejected
            (record f {
              phase = Phase.agent_loop;
              reason_codes = f.reason_codes ++ Reason.agent_loop_detected ∷ [];
            })
            true,
      )
      else (n', Verdict.rejected f (not (can_retry c.pol f.attempt c.deadline f.phase r.retry_now)))

  -- A method of the entry's breaker.
  abbrev pub on_breaker : (Breaker → Time → Breaker) → ProviderEntry F → Time → Node F → Node F
  on_breaker act e at n = record n {
    breakers = write n.breakers e.breaker (act (n.breakers e.breaker) at);
  }
