-- ===== src/Examples/Probes.antt =====
-- Probes of a provider that fails and recovers.
use mathlib.Core.Option.{map as option_map}
use signalmesh.Base.{ℕ, ◌*◌, ◌+◌, ◌≡◌, refl, true, false, Option, none, some, [], ◌∷◌, String, All}
use signalmesh.Base.Int.{pos}
use signalmesh.Base.Clock.{second, millisecond}
use signalmesh.Base.Maps.{lookup}
use signalmesh.Base.Text.{codes_eq, trim_space, byte_length}
use signalmesh.Validator.{validate, default_contract}
use signalmesh.Health.{Observer, ProbeResult, ProbeRound, window, results_of, probe_provider}
use signalmesh.Health.Verdicts.{IsClean, sees_outage}
use signalmesh.Examples.Cents.{Cents, cents_float}
use signalmesh.Examples.Ratios.{cents_ratios}
use signalmesh.Examples.Components.{decode}

abbrev failed_probe : ProbeResult
failed_probe = record {
  timestamp = 1 * second;
  success = false;
  contract_failure = false;
  latency_ms = pos 750;
}

abbrev observer : Observer
observer = record { results = ("remote", failed_probe ∷ []) ∷ [] }

-- A probe that ends at a second and answers some content, or none.
abbrev round : ℕ → Option String → ProbeRound Cents
round s answer = record {
  request_id = "probe";
  generate = λ req. answer;
  start = s * second;
  finished = s * second + 160 * millisecond;
  stamped = s * second;
  computed = s * second;
  stored = s * second;
  event = "ph-1";
  published = s * second;
  marked = s * second;
}

outage : All (λ r. r.success ≡ false) (window (3 * second) (results_of observer "remote"))
unfolding window lookup
outage = (refl, tt)

recovered : All IsClean (window (21 * second) (results_of observer "remote"))
unfolding window lookup
recovered = tt

valid : (validate decode " ok " default_contract).valid ≡ true
unfolding validate lookup codes_eq trim_space default_contract byte_length
valid = refl

sees_outage_example :
    option_map (λ h. h.status) (probe_provider decode observer "remote" (round 3 none)).1
    ≡ some "UNHEALTHY"
sees_outage_example =
    sees_outage cents_ratios decode observer "remote" (round 3 none) refl refl outage
