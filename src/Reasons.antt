-- ===== src/Reasons.antt =====
-- The texts that the node puts into its answers: the phases of a failed request
-- (services/signalmesh-node/internal/proxy/handler.go) and the reason codes of all packages. Each
-- constructor stands for the text of the same words; `Phase.unset` is the empty text.
use signalmesh.Base.{String}

pub data Phase : Type 0 where
  unset admission agent_loop no_provider budget circuit timeout generation semantic quality cost :
      Phase

pub Phase-discrete : Discrete Phase
Phase-discrete = hlevel

abbrev pub phase_text : Phase → String
phase_text Phase.unset = ""
phase_text Phase.admission = "admission"
phase_text Phase.agent_loop = "agent_loop"
phase_text Phase.no_provider = "no_provider"
phase_text Phase.budget = "budget"
phase_text Phase.circuit = "circuit"
phase_text Phase.timeout = "timeout"
phase_text Phase.generation = "generation"
phase_text Phase.semantic = "semantic"
phase_text Phase.quality = "quality"
phase_text Phase.cost = "cost"

pub data Reason : Type 0 where
  no_providers_registered no_provider_available routing_score_selected : Reason
  circuit_not_available fallback_not_allowed_by_policy provider_unhealthy : Reason
  remaining_budget_negative provider_cost_exceeds_remaining_budget : Reason
  estimated_cost_exceeds_request_budget p95_latency_exceeded provider_degraded : Reason
  provider_health_unknown contract_failure_rate_high zero_cost_provider : Reason
  within_request_budget high_risk_fallback_penalty : Reason
  admission_rejected global_load_shedding non_critical_traffic_shed : Reason
  admission_timeout admission_canceled admission_queue_full : Reason
  agent_loop_detected runaway_retry_stopped human_attention_required budget_exhausted : Reason
  circuit_breaker_rejected provider_generation_error semantic_validation_failed : Reason
  quality_below_threshold cost_budget_exceeded policy_accepted unknown_failure : Reason
  empty_content response_too_long invalid_json missing_required_field empty_answer : Reason
  invalid_confidence_type confidence_out_of_range confidence_too_low : Reason
  high_risk_policy_requires_human irreversible_action_uncertain_outcome : Reason
  critical_task_contract_violation no_provider_for_high_risk_task : Reason
  budget_exhausted_high_risk_task low_confidence_high_risk : Reason

abbrev pub reason_text : Reason → String
reason_text Reason.no_providers_registered = "NO_PROVIDERS_REGISTERED"
reason_text Reason.no_provider_available = "NO_PROVIDER_AVAILABLE"
reason_text Reason.routing_score_selected = "ROUTING_SCORE_SELECTED"
reason_text Reason.circuit_not_available = "CIRCUIT_NOT_AVAILABLE"
reason_text Reason.fallback_not_allowed_by_policy = "FALLBACK_NOT_ALLOWED_BY_POLICY"
reason_text Reason.provider_unhealthy = "PROVIDER_UNHEALTHY"
reason_text Reason.remaining_budget_negative = "REMAINING_BUDGET_NEGATIVE"
reason_text Reason.provider_cost_exceeds_remaining_budget = "PROVIDER_COST_EXCEEDS_REMAINING_BUDGET"
reason_text Reason.estimated_cost_exceeds_request_budget = "ESTIMATED_COST_EXCEEDS_REQUEST_BUDGET"
reason_text Reason.p95_latency_exceeded = "P95_LATENCY_EXCEEDED"
reason_text Reason.provider_degraded = "PROVIDER_DEGRADED"
reason_text Reason.provider_health_unknown = "PROVIDER_HEALTH_UNKNOWN"
reason_text Reason.contract_failure_rate_high = "CONTRACT_FAILURE_RATE_HIGH"
reason_text Reason.zero_cost_provider = "ZERO_COST_PROVIDER"
reason_text Reason.within_request_budget = "WITHIN_REQUEST_BUDGET"
reason_text Reason.high_risk_fallback_penalty = "HIGH_RISK_FALLBACK_PENALTY"
reason_text Reason.admission_rejected = "ADMISSION_REJECTED"
reason_text Reason.global_load_shedding = "GLOBAL_LOAD_SHEDDING"
reason_text Reason.non_critical_traffic_shed = "NON_CRITICAL_TRAFFIC_SHED"
reason_text Reason.admission_timeout = "ADMISSION_TIMEOUT"
reason_text Reason.admission_canceled = "ADMISSION_CANCELED"
reason_text Reason.admission_queue_full = "ADMISSION_QUEUE_FULL"
reason_text Reason.agent_loop_detected = "AGENT_LOOP_DETECTED"
reason_text Reason.runaway_retry_stopped = "RUNAWAY_RETRY_STOPPED"
reason_text Reason.human_attention_required = "HUMAN_ATTENTION_REQUIRED"
reason_text Reason.budget_exhausted = "BUDGET_EXHAUSTED"
reason_text Reason.circuit_breaker_rejected = "CIRCUIT_BREAKER_REJECTED"
reason_text Reason.provider_generation_error = "PROVIDER_GENERATION_ERROR"
reason_text Reason.semantic_validation_failed = "SEMANTIC_VALIDATION_FAILED"
reason_text Reason.quality_below_threshold = "QUALITY_BELOW_THRESHOLD"
reason_text Reason.cost_budget_exceeded = "COST_BUDGET_EXCEEDED"
reason_text Reason.policy_accepted = "POLICY_ACCEPTED"
reason_text Reason.unknown_failure = "UNKNOWN_FAILURE"
reason_text Reason.empty_content = "EMPTY_CONTENT"
reason_text Reason.response_too_long = "RESPONSE_TOO_LONG"
reason_text Reason.invalid_json = "INVALID_JSON"
reason_text Reason.missing_required_field = "MISSING_REQUIRED_FIELD"
reason_text Reason.empty_answer = "EMPTY_ANSWER"
reason_text Reason.invalid_confidence_type = "INVALID_CONFIDENCE_TYPE"
reason_text Reason.confidence_out_of_range = "CONFIDENCE_OUT_OF_RANGE"
reason_text Reason.confidence_too_low = "CONFIDENCE_TOO_LOW"
reason_text Reason.high_risk_policy_requires_human = "HIGH_RISK_POLICY_REQUIRES_HUMAN"
reason_text Reason.irreversible_action_uncertain_outcome = "IRREVERSIBLE_ACTION_UNCERTAIN_OUTCOME"
reason_text Reason.critical_task_contract_violation = "CRITICAL_TASK_CONTRACT_VIOLATION"
reason_text Reason.no_provider_for_high_risk_task = "NO_PROVIDER_FOR_HIGH_RISK_TASK"
reason_text Reason.budget_exhausted_high_risk_task = "BUDGET_EXHAUSTED_HIGH_RISK_TASK"
reason_text Reason.low_confidence_high_risk = "LOW_CONFIDENCE_HIGH_RISK"
