-- ===== src/Examples/Gossip.antt =====
-- Events between the nodes of a cluster.
use signalmesh.Base.{◌≡◌, refl, some, [], ◌∷◌}
use signalmesh.Base.Int.{pos}
use signalmesh.Base.Clock.{Time}
use signalmesh.Base.Float.{lit}
use signalmesh.Base.Maps.{lookup, insert}
use signalmesh.Cluster.{Observation, Store, new_store, set_observation}
use signalmesh.Cluster.Events.{IsNewest, current, set_all, latest_wins}
use signalmesh.Examples.Cents.{Cents, cents_float}

abbrev observed : Time → Observation Cents
observed at = record {
  event_id = "event-1";
  node_id = "node-2";
  provider = "remote";
  timestamp = at;
  version = at;
  status = "HEALTHY";
  availability_pct = lit 99 0;
  p95_latency_ms = pos 300;
  contract_failure_pct = lit 0 0;
}

abbrev store : Store Cents
store = new_store "node-1" (pos 3)

-- The second arrives late and is dropped.
late_dropped :
    current (set_all store (observed 5 ∷ observed 3 ∷ [])) "remote" "node-2" ≡ some (observed 5)
unfolding set_all set_observation new_store lookup insert
late_dropped = refl

latest_wins_example :
    (y : Observation Cents) × IsNewest
      (set_all store (observed 5 ∷ observed 3 ∷ []))
      "remote"
      "node-2"
      (observed 5 ∷ observed 3 ∷ [])
      y
latest_wins_example =
    latest_wins (observed 5) (observed 3 ∷ []) store "remote" "node-2"
      ((refl, refl), ((refl, refl), tt))
