-- ===== src/Examples/Requests.antt =====
-- Requests served by a node with a remote provider and a local one.
use signalmesh.Base.{
  ◌+◌, ◌≡◌, refl, true, false, none, [], ◌∷◌, String, ℕ, ◌==◌, str_eq, if◌then◌else◌,
}
use signalmesh.Base.Int.{pos}
use signalmesh.Base.Float.{lit}
use signalmesh.Providers.{ModelResponse, ProviderHealth}
use signalmesh.Admission.{Class, classify}
use signalmesh.Policy.{from_request, normalize_risk, default_policy}
use signalmesh.Breaker
use signalmesh.LoopDetector
use signalmesh.Budget
use signalmesh.Budget.{new_manager}
use signalmesh.Base.Maps.{lookup, insert}
use signalmesh.Base.Text.{trim_space, codes_eq, byte_length, to_lower, contains_any}
use signalmesh.Validator.{validate, default_contract}
use signalmesh.Router.{ProviderEntry, select, select_loop, evaluate, tally, health_of}
use signalmesh.Incident
use signalmesh.Proxy.State.{Node, Generated, Round, Context, FailureState, Verdict, Answer}
use signalmesh.Proxy.Failure.{fail_with, handle_failure, can_retry}
use signalmesh.Proxy.Attempt.{
  attempt_once, on_selection, on_selected, on_generated, on_response, failed_call, accept,
}
use signalmesh.Proxy.Chat.{Closing, attempts, max_attempts, blank, conclude, handle_chat, serve}
use signalmesh.Proxy.Verdicts.{IsVerdict, attempt_once-IsVerdict}
use signalmesh.Proxy.Endings.{attempts_enough}
use signalmesh.Proxy.Retries.{IsRetried, retried_only}
use signalmesh.Proxy.Answers.{IsServed}
use signalmesh.Proxy.Guarantees.{handle_chat-IsServed}
use signalmesh.Examples.Cents.{Cents, cents_float, cents_order}
use signalmesh.Examples.Components.{
  refund_policy, refund, within, healthy, remote, local_model, decode, escalator, stamp,
}

abbrev pub node : Node Cents
node = record {
  entries = remote ∷ local_model ∷ [];
  breakers = λ a. Breaker.new Breaker.default_config 0;
  detector = LoopDetector.new (pos 3) (pos 60000000000);
  budgets = new_manager (lit 10 0) (lit 1 0);
  escalator = escalator;
  reporter = record { node_id = "node-1"; incidents = [] };
}

abbrev reply : String → ModelResponse Cents
reply name = record {
  provider_name = name;
  model = "m";
  content = "ok";
  finish_reason = "stop";
  input_tokens = pos 10;
  output_tokens = pos 20;
  latency_ms = pos 200;
  estimated_cost = lit 1 2;
}

-- The remote provider fails, the local one answers.
abbrev generate : ProviderEntry Cents → Generated Cents
generate e =
    if e.is_fallback then Generated.response (reply e.provider) else Generated.generation_error

abbrev pub incident_stamp : Incident.Stamp
incident_stamp = record { event_id = "event-2"; incident_id = "incident-1"; timestamp = 6 }

-- The remote provider is unhealthy from the second attempt on.
abbrev health_at : ℕ → String → ProviderHealth Cents
health_at i name =
    if i == 1
    then healthy name
    else if str_eq name "remote"
    then record (healthy name) { status = "UNHEALTHY" }
    else healthy name

abbrev pub rounds : ℕ → Round Cents
rounds i = record {
  available_now = λ e. i;
  allow_now = i;
  allow_at = i;
  outcome_at = i;
  failure_now = i;
  trip_at = i;
  retry_now = i;
  get_health = health_at i;
  health_source = none;
  generate = generate;
  incident = incident_stamp;
}

abbrev pub context : Context Cents
context = record {
  req = refund;
  pol = within 3000;
  fingerprint = "a";
  deadline = pos 3000000000;
  decode = decode;
}

abbrev pub closing : Closing
closing = record { looping_now = 0; budget_stamp = incident_stamp; escalation_stamp = stamp }

handle_chat-IsServed_example :
    IsServed context rounds node (handle_chat context rounds closing none node)
handle_chat-IsServed_example = handle_chat-IsServed context rounds cents_order closing none node

attempt_once-IsVerdict_example :
    IsVerdict context (rounds 1) node 1 (attempt_once context (rounds 1) 1 node)
attempt_once-IsVerdict_example = attempt_once-IsVerdict context (rounds 1) node cents_order 1

attempts_enough_example :
    attempts context rounds (max_attempts context.pol + 2) 1 blank node
    ≡ attempts context rounds (max_attempts context.pol) 1 blank node
attempts_enough_example = attempts_enough context rounds cents_order 2 blank node

-- The first attempt fails and may be retried.
abbrev first : Node Cents × Verdict Cents
first = attempt_once context (rounds 1) 1 node

abbrev failure_of : Verdict Cents → FailureState Cents
failure_of (Verdict.rejected f stop) = f
failure_of _ = blank

first_rejected : first ≡ (first.0, Verdict.rejected (failure_of first.1) false)
unfolding attempt_once on_selection on_selected on_generated failed_call fail_with handle_failure
    can_retry select select_loop evaluate tally health_of LoopDetector.record_failure
    LoopDetector.new lookup insert Budget.remaining Budget.new_manager Breaker.new Breaker.available
    Breaker.allow Breaker.record_failure
first_rejected = refl

retried_only_example : IsRetried context (rounds 1) node 1
retried_only_example =
    retried_only context (rounds 1) node 1 cents_order first.0 (failure_of first.1) first_rejected

-- The name of the provider that answers.
abbrev delivered_by : Answer Cents → String
delivered_by (Answer.success resp d) = d.selected_provider
delivered_by _ = ""

-- The second attempt goes to the local provider.
retry_serves : delivered_by (serve context rounds closing node).1 ≡ "local"
unfolding serve conclude attempts max_attempts LoopDetector.is_looping attempt_once on_selection
    on_selected on_generated failed_call fail_with handle_failure can_retry select on_response
    accept validate default_contract trim_space codes_eq byte_length select_loop evaluate tally
    health_of LoopDetector.record_failure LoopDetector.new lookup insert Budget.remaining
    LoopDetector.record_success Budget.new_manager Breaker.new Breaker.available Breaker.allow
    Breaker.record_failure
retry_serves = refl

-- The pattern "a" has failed three times.
abbrev pub worn : Node Cents
worn = record node {
  detector = record {
    threshold = pos 3;
    window = pos 60000000000;
    entries =
        (
          "a",
          record {
            count = 3;
            first_seen = 1;
            last_seen = 3;
            reasons = "timeout" ∷ "timeout" ∷ "timeout" ∷ [];
            notified = true;
          },
        )
        ∷ [];
  };
}

-- A refund of high risk is critical traffic.
refund_class : classify refund refund_policy ≡ Class.critical
unfolding classify to_lower trim_space codes_eq contains_any from_request normalize_risk
    default_policy
refund_class = refl
