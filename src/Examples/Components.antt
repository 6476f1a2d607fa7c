-- ===== src/Examples/Components.antt =====
-- Policy, router, budget, validator, escalation and decision log on small inputs.
use signalmesh.Base.{
  if◌then◌else◌, ◌≡◌, refl, ◌↔◌, true, false, none, some, List, [], ◌∷◌, String, arith, ℕ, ◌≤◌,
}
use signalmesh.Base.Int.{pos, ◌<ℤ◌}
use signalmesh.Base.Text.{codes, codes_eq, trim_space, byte_length}
use signalmesh.Base.Float.{lit}
use signalmesh.Providers.{ModelRequest, ProviderHealth}
use signalmesh.Policy.{Policy, RiskLevel, from_request, deadline}
use signalmesh.Policy.Bounds.{deadline_overflows}
use signalmesh.Router.{ProviderEntry, Sources, evaluate, select}
use signalmesh.Router.Gates.{IsAdmissible, allowed_iff}
use signalmesh.Router.Choice.{Outcome, select-Outcome}
use signalmesh.Budget.{new_manager, read}
use signalmesh.Budget.Ledger.{charge_all, balances}
use signalmesh.Validator.{Json, Decoder, validate, default_contract}
use signalmesh.Validator.Acceptance.{IsDecoded, valid_iff}
use signalmesh.Escalation.{Escalator, FailureInfo}
use package.signalmesh.Escalation as Escalations
use signalmesh.Reasons.{Phase}
use signalmesh.DecisionLog.{new}
use signalmesh.DecisionLog.Recent.{add_all, keeps_last}
use signalmesh.Examples.Cents.{Cents, cents, cents_float, cents_order}

-- A refund of high risk that asks for two retries and at most three seconds.
abbrev pub refund : ModelRequest Cents
refund = record {
  request_id = "req-1";
  messages = record { role = "user"; content = "refund order 7" } ∷ [];
  model = "m";
  temperature = lit 0 0;
  max_tokens = pos 100;
  policy = some (record {
    max_latency_ms = some (pos 3000);
    max_cost_usd = none;
    minimum_quality_score = none;
    allow_local_fallback = none;
    requires_human_on_failure = none;
    max_retries = some (pos 2);
    idempotent = none;
  });
  task_type = "refund";
  risk_level = "HIGH";
  agent_id = "agent-1";
  priority = "";
}

abbrev pub refund_policy : Policy Cents
refund_policy = from_request refund

-- A policy with a latency bound alone of interest.
abbrev pub within : ℕ → Policy Cents
within ms = record {
  task_type = "";
  risk_level = RiskLevel.risk_low;
  max_latency_ms = pos ms;
  max_cost_usd = lit 1 2;
  minimum_quality_score = lit 70 2;
  allow_local_fallback = true;
  requires_human_on_failure = false;
  max_retries = pos 2;
  idempotent = true;
}

deadline_overflows_example : deadline (within 9223372036855) <ℤ pos 0
deadline_overflows_example =
    deadline_overflows (within 9223372036855) 9223372036855 refl (omega arith) (omega arith)

abbrev pub healthy : String → ProviderHealth Cents
healthy name = record {
  provider_name = name;
  status = "HEALTHY";
  availability_pct = lit 100 0;
  p95_latency_ms = pos 200;
  contract_failure_pct = lit 0 0;
  last_updated = 0;
  version = 1;
}

abbrev pub remote : ProviderEntry Cents
remote = record {
  provider = "remote";
  breaker = 0;
  is_fallback = false;
  priority = 0;
  cost_usd = lit 1 2;
}

abbrev pub local_model : ProviderEntry Cents
local_model = record {
  provider = "local";
  breaker = 1;
  is_fallback = true;
  priority = 1;
  cost_usd = lit 0 0;
}

abbrev sources : Sources Cents
sources = record { available = λ a. true; get_health = healthy; health_source = none }

allowed_iff_example :
    ((evaluate sources (within 3000) (lit 1 0) remote).allowed ≡ true)
    ↔ IsAdmissible sources (within 3000) (lit 1 0) remote
allowed_iff_example = allowed_iff sources (within 3000) (lit 1 0) remote

select-Outcome_example :
    Outcome sources
      (within 3000)
      (lit 1 0)
      (remote ∷ local_model ∷ [])
      (select sources (within 3000) (lit 1 0) (remote ∷ local_model ∷ []))
select-Outcome_example =
    select-Outcome sources (within 3000) (lit 1 0) cents_order (remote ∷ local_model ∷ [])

abbrev charges : List (String × Cents)
charges = ("a", cents (pos 30)) ∷ ("b", cents (pos 5)) ∷ ("a", cents (pos 12)) ∷ []

balances_example :
    let m = charge_all (new_manager (lit 10 0) (lit 1 0)) charges in
    (m.global_spent ≡ cents (pos 47)) × (read "a" m.agent_spent (lit 0 0) ≡ cents (pos 42))
balances_example = balances (lit 10 0) (lit 1 0) charges "a"

-- A decoder for one content.
abbrev pub decode : Decoder Cents
decode cs =
    if codes_eq cs (codes "{}")
    then some []
    else some (("answer", Json.string "yes") ∷ ("confidence", Json.number (lit 90 2)) ∷ [])

valid_iff_example :
    let trimmed = trim_space (codes " ok ") in
    ((validate decode " ok " default_contract).valid ≡ true) ↔ (
      (codes_eq trimmed [] ≡ false)
      × (byte_length trimmed ≤ (default_contract {F = Cents}).max_content_bytes)
      × IsDecoded default_contract (decode trimmed))
valid_iff_example = valid_iff decode " ok " default_contract

abbrev late : FailureInfo Cents
late = record {
  phase = Phase.timeout;
  provider = "remote";
  attempt = 1;
  validation = record { valid = false; score = lit 0 0; reason_codes = [] };
  reason_codes = [];
}

abbrev pub escalator : Escalator Cents
escalator = record { node_id = "node-1"; items = [] }

abbrev pub stamp : Escalations.Stamp
stamp = record { event_id = "event-1"; escalation_id = "escalation-1"; created_at = 5 }

keeps_last_example : (add_all {A = ℕ} (new (pos 2)) (1 ∷ 2 ∷ 3 ∷ [])).items ≡ 2 ∷ 3 ∷ []
keeps_last_example = keeps_last 1 (1 ∷ 2 ∷ 3 ∷ [])
