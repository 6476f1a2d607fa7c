-- ===== src/Health.antt =====
-- services/signalmesh-node/internal/health/observer.go: probes of the providers, and the status that
-- the fresh ones give. The loop that probes at an interval is left out; `ProbeRound` is what the
-- outside gives to one probe.
pub mod Windows
pub mod Verdicts
pub mod Exclusion
use mathlib.Core.Option.{map as option_map}
use signalmesh.Base.{
  ℕ, ◌+◌, ◌-◌, ◌*◌, ◌/◌, Bool, true, false, not, ◌||◌, Option, none, some, List, [], ◌∷◌, ◌++◌,
  String, ltb, if◌then◌else◌, length, drop, map,
}
use signalmesh.Base.Int.{ℤ, pos, ltb_ℤ, leb_ℤ}
use signalmesh.Base.Clock.{Time, second, since, milliseconds}
use signalmesh.Base.Float.{Float64, lit, flt, fdiv, fmul, of_int, to_int}
use signalmesh.Base.Maps.{Map, lookup, insert}
use signalmesh.Base.Perms.{count_of}
use signalmesh.Base.Sorting.{sort, at_index, clamp}
use signalmesh.Providers.{ModelRequest, Message, ProviderHealth}
use signalmesh.Validator.{Decoder, validate, default_contract}
use signalmesh.Cluster.{Store, Observation, publish_provider_health}
use signalmesh.Cluster.Reading.{set_local_provider_health}

pub record ProbeResult : Type 0 where
  pub timestamp : Time
  pub success : Bool
  pub contract_failure : Bool
  pub latency_ms : ℤ

-- The results of the probes of each provider, the oldest first.
pub record Observer : Type 0 where
  pub results : Map (List ProbeResult)

-- `generate` gives the content of a response, `none` for an error or no response.
pub record ProbeRound (F : Type 0) : Type 0 where
  pub request_id : String
  pub generate : ModelRequest F → Option String
  pub start : Time
  pub finished : Time
  pub stamped : Time
  pub computed : Time
  pub stored : Time
  pub event : String
  pub published : Time
  pub marked : Time

unfoldable pub new_observer : Observer
new_observer = record { results = [] }

abbrev pub health_window : ℕ
health_window = 15 * second

-- The results so far; none yet are an empty list.
abbrev pub or_none : Option (List ProbeResult) → List ProbeResult
or_none none = []
or_none (some rs) = rs

abbrev pub results_of : Observer → String → List ProbeResult
results_of o provider = or_none (lookup provider o.results)

-- The last 20 results.
unfoldable pub keep_last : List ProbeResult → List ProbeResult
keep_last rs = if ltb 20 (length rs) then drop (length rs - 20) rs else rs

unfoldable pub record_result : Observer → String → ProbeResult → Observer
unfolding keep_last
record_result o provider result = record o {
  results = insert provider (keep_last (results_of o provider ++ result ∷ [])) o.results;
}

unfoldable pub window : Time → List ProbeResult → List ProbeResult
window now [] = []
window now (r ∷ rs) =
    let rest = window now rs in
    if leb_ℤ (since now r.timestamp) (pos health_window) then r ∷ rest else rest

module _ {F : Type 0} ⦃fl : Float64 F⦄ where
  unfoldable pub probe_request : String → ModelRequest F
  probe_request request_id = record {
    request_id = request_id;
    messages = record { role = "user"; content = "health probe" } ∷ [];
    model = "probe";
    temperature = lit 0 0;
    max_tokens = pos 0;
    policy = none;
    task_type = "probe";
    risk_level = "low";
    agent_id = "signalmesh-health-observer";
    priority = "";
  }

  unfoldable pub share_pct : (ProbeResult → Bool) → List ProbeResult → F
  unfolding count_of
  share_pct test rs =
      fmul (fdiv (of_int (pos (count_of test rs))) (of_int (pos (length rs)))) (lit 100 0)

  unfoldable pub probe_status : F → F → ℤ → String
  probe_status availability contract p95 =
      if flt availability (lit 50 0) || flt (lit 20 0) contract
      then "UNHEALTHY"
      else if flt availability (lit 95 0) || flt (lit 2 0) contract || ltb_ℤ (pos 1500) p95
      then "DEGRADED"
      else "HEALTHY"

  -- The sorted latencies are read at the 95th percentile. `none` would be a panic.
  unfoldable pub latency_p95 : (F → ℤ) → List ProbeResult → Option ℤ
  unfolding sort
  latency_p95 cut rs =
      let latencies = map (λ r. r.latency_ms) rs in
      let n = length latencies in
      at_index (sort latencies) (clamp n (cut (fmul (of_int (pos n)) (lit 95 2))))

  unfoldable pub health_from : String → Time → List ProbeResult → Option (ProviderHealth F)
  unfolding share_pct probe_status latency_p95
  health_from provider now [] = some (record {
    provider_name = provider;
    status = "UNKNOWN";
    availability_pct = lit 100 0;
    p95_latency_ms = pos 0;
    contract_failure_pct = lit 0 0;
    last_updated = now;
    version = 0;
  })
  health_from provider now (r ∷ rs) =
      let results = r ∷ rs in
      let availability = share_pct (λ x. x.success) results in
      let contract = share_pct (λ x. x.contract_failure) results in
      option_map
        (λ p95. record {
          provider_name = provider;
          status = probe_status availability contract p95;
          availability_pct = availability;
          p95_latency_ms = p95;
          contract_failure_pct = contract;
          last_updated = now;
          version = 0;
        })
        (latency_p95 to_int results)

  unfoldable pub compute_health : Observer → String → Time → Option (ProviderHealth F)
  unfolding window health_from
  compute_health o provider now = health_from provider now (window now (results_of o provider))

  abbrev pub is_valid : Decoder F → Option String → Bool
  is_valid decode none = false
  is_valid decode (some content) = (validate decode content default_contract).valid

  abbrev pub is_violation : Decoder F → Option String → Bool
  is_violation decode none = false
  is_violation decode (some content) = not (validate decode content default_contract).valid

  unfoldable pub probed : Decoder F → ProbeRound F → ProbeResult
  unfolding probe_request
  probed decode p =
      let answer = p.generate (probe_request p.request_id) in
      record {
        timestamp = p.stamped;
        success = is_valid decode answer;
        contract_failure = is_violation decode answer;
        latency_ms = milliseconds (since p.finished p.start);
      }

  unfoldable pub probe_provider :
      Decoder F → Observer → String → ProbeRound F → Observer × Option (ProviderHealth F)
  unfolding probed record_result compute_health
  probe_provider decode o provider p =
      let o' = record_result o provider (probed decode p) in
      (o', compute_health o' provider p.computed)

  -- The observation that is published; the store fills in the rest.
  unfoldable pub observation : String → ProviderHealth F → Observation F
  observation provider h = record {
    event_id = "";
    node_id = "";
    provider = provider;
    timestamp = 0;
    version = 0;
    status = h.status;
    availability_pct = h.availability_pct;
    p95_latency_ms = h.p95_latency_ms;
    contract_failure_pct = h.contract_failure_pct;
  }

  -- What a probe leaves in the store.
  unfoldable pub report_health : Store F → String → ProbeRound F → ProviderHealth F → Store F
  unfolding set_local_provider_health publish_provider_health observation
  report_health s provider p h =
      (publish_provider_health (set_local_provider_health s provider h p.stored)
        (observation provider h) p.event p.published p.marked).0

  abbrev pub and_report :
      String
      → ProbeRound F
      → Store F
      → Observer × Option (ProviderHealth F)
      → Option (Observer × Store F)
  and_report provider p s (o, none) = none
  and_report provider p s (o, some h) = some (o, report_health s provider p h)

  -- The loop over the providers, each with its round; `none` is a panic.
  unfoldable pub probe_all :
      Decoder F → List (String × ProbeRound F) → Observer × Store F → Option (Observer × Store F)
  unfolding probe_provider report_health
  probe_all decode [] (o, s) = some (o, s)
  probe_all decode ((provider, p) ∷ rest) (o, s) =
      elim (and_report provider p s (probe_provider decode o provider p)) [
        | none ↦ none
        | some next ↦ probe_all decode rest next
      ]
