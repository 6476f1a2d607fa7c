-- ===== src/Providers/Mock.antt =====
-- services/signalmesh-node/internal/providers/mock.go: the provider that simulates failures. Random
-- numbers, clocks and the context are given from outside.
use mathlib.Core.Bool.{Bool, true, false}
use signalmesh.Base.{ℕ, ◌+◌, ◌*◌, ◌/◌, String, length, ltb, if◌then◌else◌}
use signalmesh.Base.Int.{ℤ, pos, pos_part, neg_part, sub_ℕ, add_ℤ, mul_pos, wrap64}
use signalmesh.Base.Clock.{Time, Duration, millisecond, since, milliseconds}
use signalmesh.Base.Float.{Float64, lit, flt, fmul, fdiv, of_int}
use signalmesh.Providers.{ModelRequest, ModelResponse, ProviderHealth}

-- The counters that the mock and the local provider keep.
pub record Counters : Type 0 where
  pub total_reqs : ℕ
  pub success_reqs : ℕ
  pub total_latency_ms : ℤ

pub record MockProvider (F : Type 0) : Type 0 where
  pub name : String
  pub latency_base_ms : ℤ
  pub error_rate : F
  pub contract_fail : Bool
  pub counters : Counters

-- What `Generate` returns: a response, the error of the context, or the provider's own error.
pub data Generation (F : Type 0) : Type 0 where
  produced : ModelResponse F → Generation F
  context_error : Generation F
  server_error : Generation F

-- What the outside gives to one call: whether the context is done before a timer of some length,
-- the two random numbers, and three readings of the clock.
pub record MockRound (F : Type 0) : Type 0 where
  pub done_first : Duration → Bool
  pub jitter : ℕ
  pub chance : F
  pub start : Time
  pub answered : Time
  pub ended : Time

unfoldable pub no_counters : Counters
no_counters = record { total_reqs = 0; success_reqs = 0; total_latency_ms = pos 0 }

unfoldable pub record_request : Counters → Bool → Duration → Counters
record_request c success d = record {
  total_reqs = c.total_reqs + 1;
  success_reqs = if success then c.success_reqs + 1 else c.success_reqs;
  total_latency_ms = add_ℤ c.total_latency_ms (milliseconds d);
}

-- A quotient, cut off toward 0.
abbrev quotient : ℤ → ℕ → ℤ
quotient z n = sub_ℕ (pos_part z / n) (neg_part z / n)

abbrev pub mock_content : Bool → String
mock_content true = "{\"answer\":\"Paris\"}"
mock_content false = "{\"answer\":\"The capital of France is Paris.\",\"confidence\":0.98}"

module _ {F : Type 0} ⦃fl : Float64 F⦄ where
  unfoldable pub new_mock_provider : String → MockProvider F
  unfolding no_counters
  new_mock_provider name = record {
    name = name;
    latency_base_ms = pos 150;
    error_rate = lit 0 0;
    contract_fail = false;
    counters = no_counters;
  }

  unfoldable pub inject_failure : MockProvider F → ℤ → F → Bool → MockProvider F
  inject_failure m latency_ms error_rate contract_fail = record m {
    latency_base_ms = latency_ms;
    error_rate = error_rate;
    contract_fail = contract_fail;
  }

  unfoldable pub mock_generate :
      MockProvider F → ModelRequest F → MockRound F → MockProvider F × Generation F
  unfolding record_request
  mock_generate m req r =
      let delay = wrap64 (mul_pos (add_ℤ m.latency_base_ms (pos r.jitter)) millisecond) in
      let counted = λ (success : Bool). record m {
        counters = record_request m.counters success (since r.ended r.start);
      } in
      if r.done_first delay
      then (counted false, Generation.context_error)
      else if flt r.chance m.error_rate
      then (counted false, Generation.server_error)
      else (
        counted true,
        Generation.produced (record {
          provider_name = m.name;
          model = req.model;
          content = mock_content m.contract_fail;
          finish_reason = "stop";
          input_tokens = pos (length req.messages * 10);
          output_tokens = pos 20;
          latency_ms = milliseconds (since r.answered r.start);
          estimated_cost = lit 1 4;
        }),
      )

  availability_of : Counters → F
  availability_of c =
      if ltb 0 c.total_reqs
      then fmul (fdiv (of_int (pos c.success_reqs)) (of_int (pos c.total_reqs))) (lit 100 0)
      else lit 100 0

  -- `GetHealth`, which the mock and the local provider share.
  unfoldable pub health_report : String → Counters → Time → ProviderHealth F
  unfolding availability_of
  health_report name c now =
      let available = availability_of c in
      record {
        provider_name = name;
        status =
            if flt available (lit 50 0)
            then "UNHEALTHY"
            else if flt available (lit 90 0)
            then "DEGRADED"
            else "HEALTHY";
        availability_pct = available;
        p95_latency_ms =
            if ltb 0 c.total_reqs then quotient c.total_latency_ms c.total_reqs else pos 0;
        contract_failure_pct = lit 0 0;
        last_updated = now;
        version = 1;
      }

  unfoldable pub mock_get_health : MockProvider F → Time → ProviderHealth F
  unfolding health_report
  mock_get_health m now = health_report m.name m.counters now
