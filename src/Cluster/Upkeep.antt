-- ===== src/Cluster/Upkeep.antt =====
-- services/signalmesh-node/internal/cluster/store.go: `cleanup`, and the snapshot `Status`.
use mathlib.Core.Option.{map as option_map}
use signalmesh.Base.{ℕ, Bool, true, false, not, Option, List, [], ◌∷◌, String, if◌then◌else◌, map}
use signalmesh.Base.Int.{ℤ, pos, leb_ℤ}
use signalmesh.Base.Clock.{Time, since}
use signalmesh.Base.Float.{Float64}
use signalmesh.Base.Maps.{Map, insert, delete, retain}
use signalmesh.Base.Perms.{count_of}
use signalmesh.Cluster.{Observation, NodeStatus, Store, observation_ttl, node_ttl, by_node}
use signalmesh.Cluster.Reading.{
  MapOrder, seen_ttl, expired, is_recent, required, get_provider_health,
}

-- `ProviderConsensusHealth`
pub record ProviderConsensus (F : Type 0) : Type 0 where
  pub provider : String
  pub status : String
  pub availability_pct : F
  pub p95_latency_ms : ℤ
  pub contract_failure_pct : F
  pub observations : ℕ
  pub has_consensus : Bool

pub record ClusterStatus (F : Type 0) : Type 0 where
  pub node_id : String
  pub cluster_size : ℤ
  pub nodes : List NodeStatus
  pub providers : List (Option (ProviderConsensus F))

unfoldable pub is_empty : {A : Type 0} → Map A → Bool
is_empty [] = true
is_empty (entry ∷ rest) = false

-- The names of a map beside others, each once.
names_of : {A : Type 0} → Map A → Map {0} Unit → Map {0} Unit
names_of [] names = names
names_of (entry ∷ rest) names = names_of rest (insert entry.0 tt names)

module _ {F : Type 0} where
  unfoldable pub fresh : Time → Map (Observation F) → Map (Observation F)
  unfolding retain expired
  fresh now m = retain (λ o. not (expired observation_ttl now o.timestamp)) m

  -- A provider without observations left is deleted.
  unfoldable pub prune : Time → Map (Map (Observation F)) → Map (Map (Observation F))
  unfolding fresh delete is_empty
  prune now [] = []
  prune now (entry ∷ rest) =
      let others = prune now rest in
      let kept = fresh now entry.1 in
      if is_empty kept then delete entry.0 others else (entry.0, kept) ∷ others

  unfoldable pub cleanup : Store F → Time → Store F
  unfolding prune retain expired
  cleanup s now = record s {
    seen = retain (λ at. not (expired seen_ttl now at)) s.seen;
    observations = prune now s.observations;
  }

module _ {F : Type 0} ⦃fl : Float64 F⦄ where
  -- A provider of the snapshot; each call of `GetProviderHealth` reads the clock again.
  unfoldable pub consensus_of :
      MapOrder F → Store F → Time → (String → Time) → String → Option (ProviderConsensus F)
  unfolding get_provider_health count_of is_recent required
  consensus_of ord s now later name =
      let observations = count_of (is_recent s now) (by_node s name) in
      option_map
        (λ health. record {
          provider = name;
          status = health.status;
          availability_pct = health.availability_pct;
          p95_latency_ms = health.p95_latency_ms;
          contract_failure_pct = health.contract_failure_pct;
          observations = observations;
          has_consensus = leb_ℤ (required s.cluster_size) (pos observations);
        })
        (get_provider_health ord s name (later name))

  unfoldable pub cluster_status : MapOrder F → Store F → Time → (String → Time) → ClusterStatus F
  unfolding consensus_of names_of insert
  cluster_status ord s now later = record {
    node_id = s.node_id;
    cluster_size = s.cluster_size;
    nodes =
        map (λ entry. record entry.1 { alive = leb_ℤ (since now entry.1.last_seen) (pos node_ttl) })
          s.nodes;
    providers =
        map (λ entry. consensus_of ord s now later entry.0)
          (names_of s.observations (names_of s.local_health []));
  }
