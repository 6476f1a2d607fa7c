-- ===== src/Examples/Consensus.antt =====
-- Two of three nodes report an outage: what the store says of it, and what the router makes of it.
use mathlib.Core.Option.{map as option_map}
use mathlib.Core.List.Permᴰ as Permuted
use signalmesh.Base.{
  ◌*◌, ◌+◌, ◌≡◌, ◌≢◌, refl, false, true, Option, none, some, [], ◌∷◌, String, arith, eq_iff,
}
use signalmesh.Base.Int.{pos}
use signalmesh.Base.Clock.{Time, second}
use signalmesh.Base.Float.{lit}
use signalmesh.Base.Maps.{lookup}
use signalmesh.Base.Perms.{count_of, sum_of}
use signalmesh.Providers.{ProviderHealth}
use signalmesh.Policy.{RiskLevel, default_policy}
use signalmesh.Router.{ProviderEntry, Sources, evaluate}
use signalmesh.Cluster.{Observation, Store, node_alive, by_node}
use signalmesh.Cluster.Reading.{
  MapOrder, IsMapOrder, expired, is_recent, get_provider_health, own_health,
}
use signalmesh.Cluster.Consensus.{supports, majority_wins}
use signalmesh.Cluster.Upkeep.{cleanup}
use signalmesh.Cluster.Cleanup.{cleanup_silent}
use signalmesh.Health.Exclusion.{outage_excludes}
use signalmesh.Examples.Cents.{Cents, cents_float}

abbrev at : Time
at = 20 * second

abbrev reported : String → Observation Cents
reported node = record {
  event_id = node;
  node_id = node;
  provider = "remote";
  timestamp = at;
  version = 1;
  status = "UNHEALTHY";
  availability_pct = lit 0 0;
  p95_latency_ms = pos 750;
  contract_failure_pct = lit 0 0;
}

abbrev agreed : Store Cents
agreed = record {
  node_id = "node-1";
  cluster_size = pos 3;
  nodes =
      ("node-2", record { node_id = "node-2"; alive = true; last_seen = at })
      ∷ ("node-3", record { node_id = "node-3"; alive = true; last_seen = 0 })
      ∷ [];
  observations =
      (
        "remote",
        ("node-3", reported "node-3")
            ∷ ("node-1", reported "node-1")
            ∷ ("node-2", reported "node-2")
            ∷ [],
      )
      ∷ [];
  local_health = [];
  seen = [];
  version = 4;
  heartbeat_enabled = true;
}

abbrev in_order : MapOrder Cents
in_order = record { observed = λ m. m; counted = λ m. m }

in_order-IsMapOrder : IsMapOrder in_order
in_order-IsMapOrder = record {
  observed_all = λ m. Permuted.refl m;
  counted_all = λ m. Permuted.refl m;
}

-- The third node has not sent a heartbeat for too long.
two_votes : count_of (supports agreed at "UNHEALTHY") (by_node agreed "remote") ≡ 2
unfolding count_of sum_of is_recent expired node_alive lookup
two_votes = refl

two_recent : count_of (is_recent agreed at) (by_node agreed "remote") ≡ 2
unfolding count_of sum_of is_recent expired node_alive lookup
two_recent = refl

unhealthy_known : ◌≢◌ {A = String} "UNHEALTHY" "UNKNOWN"
unhealthy_known h = ground (arith, eq_iff "UNHEALTHY" "UNKNOWN", h)

majority_wins_example :
    option_map (λ h. h.status) (get_provider_health in_order agreed "remote" at) ≡ some "UNHEALTHY"
majority_wins_example =
    majority_wins in_order agreed "remote" "UNHEALTHY" at 3 in_order-IsMapOrder refl unhealthy_known
      (omega (arith, two_votes)) (omega (arith, two_recent))

cleanup_silent_example :
    get_provider_health in_order (cleanup agreed at) "remote" (at + 1)
    ≡ get_provider_health in_order agreed "remote" (at + 1)
cleanup_silent_example =
    cleanup_silent in_order agreed at (at + 1) "remote" (λ m. refl) (omega arith)

-- What the store reports; it never panics.
abbrev some_health : Option (ProviderHealth Cents) → String → ProviderHealth Cents
some_health none name = own_health none name at
some_health (some h) name = h

abbrev of_store : String → ProviderHealth Cents
of_store name = some_health (get_provider_health in_order agreed name at) name

abbrev sources : Sources Cents
sources = record { available = λ b. true; get_health = of_store; health_source = some of_store }

abbrev remote : ProviderEntry Cents
remote = record {
  provider = "remote";
  breaker = 0;
  is_fallback = false;
  priority = 0;
  cost_usd = lit 1 2;
}

read_remote : get_provider_health in_order agreed "remote" at ≡ some (of_store "remote")
unfolding get_provider_health lookup node_alive
read_remote = refl

outage_excludes_example :
    (evaluate sources (default_policy RiskLevel.risk_low) (lit 5 0) remote).allowed ≡ false
outage_excludes_example =
    outage_excludes sources in_order agreed remote at 3 (default_policy RiskLevel.risk_low)
      (lit 5 0) in_order-IsMapOrder
      (record { source = of_store; connected = refl; read = read_remote }) refl
      (omega (arith, two_votes)) (omega (arith, two_recent))
