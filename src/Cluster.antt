-- ===== src/Cluster.antt =====
-- services/signalmesh-node/internal/cluster/store.go and types.go: what a node knows of the others.
-- A mutex makes each part that it guards one step; the callbacks of the bus run one after the other.
-- A new identifier and each reading of the clock is an argument; what is published is returned.
-- Left out: the loops that call these functions. Reading has `GetProviderHealth`, Upkeep has
-- `cleanup` and `Status`, and Commands what `PublishChaos` and `handleChaos` do.
pub mod Events
pub mod Reading
pub mod Consensus
pub mod Upkeep
pub mod Cleanup
pub mod Commands
use signalmesh.Base.{
  ℕ, ◌+◌, ◌*◌, Bool, true, false, not, ◌&&◌, ◌||◌, Option, none, some, List, [], ◌∷◌, String, ltb,
  leb, ◌==◌, str_eq, if◌then◌else◌,
}
use signalmesh.Base.Int.{ℤ, pos, ltb_ℤ, leb_ℤ}
use signalmesh.Base.Clock.{Time, second, since}
use signalmesh.Base.Maps.{Map, lookup, insert}
use signalmesh.Providers.{ProviderHealth}

pub record Heartbeat : Type 0 where
  pub event_id : String
  pub node_id : String
  pub timestamp : Time
  pub status : String
  pub version : ℕ

pub record Observation (F : Type 0) : Type 0 where
  pub event_id : String
  pub node_id : String
  pub provider : String
  pub timestamp : Time
  pub version : ℕ
  pub status : String
  pub availability_pct : F
  pub p95_latency_ms : ℤ
  pub contract_failure_pct : F

pub record NodeStatus : Type 0 where
  pub node_id : String
  pub alive : Bool
  pub last_seen : Time

pub record Store (F : Type 0) : Type 0 where
  pub node_id : String
  pub cluster_size : ℤ
  pub nodes : Map NodeStatus
  pub observations : Map (Map (Observation F))
  pub local_health : Map (ProviderHealth F)
  pub seen : Map Time
  pub version : ℕ
  pub heartbeat_enabled : Bool

abbrev pub observation_ttl : ℕ
observation_ttl = 10 * second

abbrev pub node_ttl : ℕ
node_ttl = 5 * second

-- Two keys that order observations: `Timestamp`, then `Version`.
abbrev pub is_stale : {F : Type 0} → Observation F → Observation F → Bool
is_stale obs existing =
    ltb obs.timestamp existing.timestamp
    || (obs.timestamp == existing.timestamp && leb obs.version existing.version)

is_late : Heartbeat → Option NodeStatus → Bool
is_late hb none = false
is_late hb (some existing) = ltb hb.timestamp existing.last_seen

module _ {F : Type 0} where
  unfoldable pub new_store : String → ℤ → Store F
  new_store node_id cluster_size = record {
    node_id = node_id;
    cluster_size = if leb_ℤ cluster_size (pos 0) then pos 1 else cluster_size;
    nodes = [];
    observations = [];
    local_health = [];
    seen = [];
    version = 0;
    heartbeat_enabled = true;
  }

  unfoldable pub set_heartbeat_enabled : Store F → Bool → Store F
  set_heartbeat_enabled s enabled = record s { heartbeat_enabled = enabled }

  unfoldable pub mark_seen_local : Store F → String → Time → Store F
  mark_seen_local s event now = record s { seen = insert event now s.seen }

  unfoldable pub already_seen : Store F → String → Time → Store F × Bool
  already_seen s event now = elim (lookup event s.seen) [
    | some at ↦ (s, true)
    | none ↦ (record s { seen = insert event now s.seen }, false)
  ]

  unfoldable pub set_node : Store F → Heartbeat → Store F
  unfolding is_late
  set_node s hb = if is_late hb (lookup hb.node_id s.nodes) then s else record s {
    nodes =
        insert hb.node_id (record { node_id = hb.node_id; alive = true; last_seen = hb.timestamp })
          s.nodes;
  }

  -- The observations of a provider, by node; none yet are an empty map.
  abbrev pub or_empty : Option (Map (Observation F)) → Map (Observation F)
  or_empty none = []
  or_empty (some m) = m

  abbrev pub by_node : Store F → String → Map (Observation F)
  by_node s provider = or_empty (lookup provider s.observations)

  is_old : Observation F → Option (Observation F) → Bool
  is_old obs none = false
  is_old obs (some existing) = is_stale obs existing

  unfoldable pub set_observation : Store F → Observation F → Store F
  unfolding is_old
  set_observation s obs =
      let m = by_node s obs.provider in
      record s {
        observations =
            insert obs.provider
              (if is_old obs (lookup obs.node_id m) then m else insert obs.node_id obs m)
              s.observations;
      }

  unfoldable pub publish_heartbeat : Store F → String → Time → Time → Store F × Option Heartbeat
  publish_heartbeat s event now seen_at =
      if not s.heartbeat_enabled
      then (s, none)
      else (let hb : Heartbeat = record {
        event_id = event;
        node_id = s.node_id;
        timestamp = now;
        status = "HEALTHY";
        version = s.version + 1;
      } in
          (
            set_node (mark_seen_local (record s { version = s.version + 1 }) event seen_at) hb,
            some hb,
          ))

  -- An event that cannot be decoded is `none`.
  unfoldable pub handle_heartbeat : Store F → Option Heartbeat → Time → Store F
  handle_heartbeat s none now = s
  handle_heartbeat s (some hb) now =
      if str_eq hb.event_id ""
      then s
      else (let (s', again) = already_seen s hb.event_id now in
          if again then s' else set_node s' hb)

  unfoldable pub publish_provider_health :
      Store F → Observation F → String → Time → Time → Store F × Observation F
  publish_provider_health s obs event now seen_at =
      let o = record obs {
        event_id = event;
        node_id = s.node_id;
        timestamp = now;
        version = s.version + 1;
      } in
      (set_observation (mark_seen_local (record s { version = s.version + 1 }) event seen_at) o, o)

  unfoldable pub handle_provider_health : Store F → Option (Observation F) → Time → Time → Store F
  handle_provider_health s none now later = s
  handle_provider_health s (some obs) now later =
      if str_eq obs.event_id ""
      then s
      else (let (s', again) = already_seen s obs.event_id now in
          if again
          then s'
          else if ltb_ℤ (pos observation_ttl) (since later obs.timestamp)
          then s'
          else set_observation s' obs)

  unfoldable pub node_alive : Store F → String → Time → Bool
  node_alive s node now = if str_eq node s.node_id then true else elim (lookup node s.nodes) [
    | none ↦ false
    | some status ↦ leb_ℤ (since now status.last_seen) (pos node_ttl)
  ]
