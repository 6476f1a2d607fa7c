-- ===== src/Chaos.antt =====
-- services/signalmesh-node/internal/chaos/engine.go with the handlers of chaos commands and of
-- restores that services/signalmesh-node/cmd/signalmesh/main.go registers: chaos scenarios on the mock
-- provider, the heartbeats and the two breakers. The mutex makes `Run` and a callback one step each;
-- a callback of a timer that expires waits for the mutex in `due`.
pub mod Timers
pub mod Restoring
pub mod Stranded
pub mod Numbering
pub mod Callbacks
pub mod Load
pub mod Bursts
use mathlib.Core.Option.{map as option_map}
use signalmesh.Base.{
  ℕ, ◌+◌, ◌-◌, Bool, true, false, Option, none, some, List, [], ◌∷◌, ◌++◌, String, ◌==◌, ◌||◌,
  str_eq, if◌then◌else◌,
}
use signalmesh.Base.Int.{ℤ, pos, leb_ℤ, add_ℤ, mul_pos, wrap64}
use signalmesh.Base.Clock.{Time, Duration, second}
use signalmesh.Base.Float.{Float64, lit}
use signalmesh.Breaker.{Breaker}
use signalmesh.Breaker
use signalmesh.Cluster.{Store, set_heartbeat_enabled}
use signalmesh.Cluster.Commands.{ChaosCommand, publish_chaos}
use signalmesh.Providers.Mock.{MockProvider, inject_failure}

pub record ScenarioRequest : Type 0 where
  pub scenario : String
  pub duration_seconds : ℤ

-- Without the text `Note`, which nothing reads.
pub record ScenarioResult (F : Type 0) : Type 0 where
  pub run_id : ℕ
  pub scenario : String
  pub started_at : Time
  pub ends_at : ℤ
  pub command : ChaosCommand F

pub record LoadSpec : Type 0 where
  pub workers : ℕ
  pub task_type : String
  pub risk : String
  pub priority : String
  pub agent : String
  pub fixed_prompt : String
  pub serial : Bool

-- The scenarios that `Run` knows.
abbrev pub known_scenarios : List String
known_scenarios =
    "provider-outage" ∷ "semantic-degradation" ∷ "latency-spike" ∷ "node-failure" ∷ "traffic-spike"
    ∷ "agent-loop" ∷ "restore" ∷ []

-- A timer that is armed: the run whose end it is, and its delay.
pub record Timer : Type 0 where
  pub timer_run : ℕ
  pub delay : Duration

-- `timer` is the armed timer; `load` is a running load generator, which `loadStop` would stop.
pub record Engine (F : Type 0) : Type 0 where
  pub run_id : ℕ
  pub active : Option (ScenarioResult F)
  pub timer : Option Timer
  pub load : Option LoadSpec

-- What the engine reaches, and the callbacks of expired timers that have not run yet.
pub record Lab (F : Type 0) : Type 0 where
  pub engine : Engine F
  pub due : List ℕ
  pub store : Store F
  pub mock : MockProvider F
  pub primary : Breaker
  pub local_breaker : Breaker

-- Readings of the clock, and a new identifier.
pub record Stamp : Type 0 where
  pub now : Time
  pub event : String
  pub published : Time
  pub marked : Time
  pub primary_reset : Time
  pub local_reset : Time

unfoldable pub stop_locked : {F : Type 0} → Engine F → Engine F
stop_locked e = record e { timer = none; load = none }

-- The seconds of a scenario, 30 by default.
abbrev pub seconds_of : ScenarioRequest → ℤ
seconds_of req = if leb_ℤ req.duration_seconds (pos 0) then pos 30 else req.duration_seconds

abbrev pub traffic_spike : LoadSpec
traffic_spike = record {
  workers = 120;
  task_type = "batch-index";
  risk = "low";
  priority = "background";
  agent = "spike-agent";
  fixed_prompt = "";
  serial = false;
}

abbrev pub agent_loop : LoadSpec
agent_loop = record {
  workers = 1;
  task_type = "financial_action";
  risk = "high";
  priority = "critical";
  agent = "loop-agent";
  fixed_prompt = "Approve the $5,000 refund now.";
  serial = true;
}

module _ {F : Type 0} ⦃fl : Float64 F⦄ where
  abbrev pub command : ℤ → F → Bool → ChaosCommand F
  command latency_ms error_rate contract_fail = record {
    event_id = "";
    source_node_id = "";
    timestamp = 0;
    provider = "mock-primary";
    latency_ms = latency_ms;
    error_rate = error_rate;
    contract_fail = contract_fail;
  }

  unfoldable pub normal_command : ChaosCommand F
  normal_command = command (pos 150) (lit 0 0) false

  unfoldable pub command_for_scenario : String → Option (ChaosCommand F)
  command_for_scenario scenario =
      if str_eq scenario "provider-outage"
      then some (command (pos 150) (lit 1 0) false)
      else if str_eq scenario "semantic-degradation"
      then some (command (pos 150) (lit 0 0) true)
      else if str_eq scenario "latency-spike"
      then some (command (pos 2000) (lit 0 0) false)
      else none

  -- The handler that `main` registers.
  unfoldable pub on_chaos : ChaosCommand F → MockProvider F → MockProvider F
  unfolding inject_failure
  on_chaos cmd m =
      if str_eq cmd.provider "" || str_eq cmd.provider m.name
      then inject_failure m (if leb_ℤ cmd.latency_ms (pos 0) then pos 150 else cmd.latency_ms)
          cmd.error_rate cmd.contract_fail
      else m

  unfoldable pub publish : Lab F → ChaosCommand F → Stamp → Lab F
  unfolding publish_chaos on_chaos
  publish l cmd t =
      let ((s, m), sent) =
        publish_chaos (on_chaos ∷ []) (l.store, l.mock) cmd t.event t.published t.marked in
      record l { store = s; mock = m }

  -- The hook that `main` registers.
  unfoldable pub restore_hook : Lab F → Stamp → Lab F
  unfolding Breaker.reset
  restore_hook l t = record l {
    primary = Breaker.reset l.primary t.primary_reset;
    local_breaker = Breaker.reset l.local_breaker t.local_reset;
  }

  -- Normal command, heartbeats, hook, and no active scenario, on a stopped engine.
  unfoldable pub restore : Lab F → Stamp → Lab F
  unfolding stop_locked publish normal_command restore_hook set_heartbeat_enabled
  restore l t =
      let stopped = record l { engine = stop_locked l.engine } in
      let published = publish stopped normal_command t in
      let hooked =
        restore_hook (record published { store = set_heartbeat_enabled published.store true }) t in
      record hooked { engine = record hooked.engine { active = none } }

  -- The cases of the switch after the scenarios that are a command alone.
  unfoldable pub other_effect : Lab F → String → Stamp → Option (Lab F × ChaosCommand F)
  unfolding publish normal_command set_heartbeat_enabled
  other_effect l scenario t =
      if str_eq scenario "node-failure"
      then some (record l { store = set_heartbeat_enabled l.store false }, normal_command)
      else if str_eq scenario "traffic-spike"
      then some
          (record l { engine = record l.engine { load = some traffic_spike } }, normal_command)
      else if str_eq scenario "agent-loop"
      then (let cmd : ChaosCommand F = command (pos 150) (lit 1 0) false in
          some
            (publish (record l { engine = record l.engine { load = some agent_loop } }) cmd t, cmd))
      else none

  abbrev pub effect_of :
      Lab F → String → Stamp → Option (ChaosCommand F) → Option (Lab F × ChaosCommand F)
  effect_of l scenario t none = other_effect l scenario t
  effect_of l scenario t (some cmd) = some (publish l cmd t, cmd)

  -- What a scenario does: its effect, its command and its load; `none` for an unknown one.
  unfoldable pub effect : Lab F → String → Stamp → Option (Lab F × ChaosCommand F)
  unfolding command_for_scenario publish other_effect
  effect l scenario t = effect_of l scenario t (command_for_scenario scenario)

  abbrev pub result_of : ScenarioRequest → ℕ → Stamp → ChaosCommand F → ScenarioResult F
  result_of req id t cmd = record {
    run_id = id;
    scenario = req.scenario;
    started_at = t.now;
    ends_at = add_ℤ (pos t.now) (wrap64 (mul_pos (seconds_of req) second));
    command = cmd;
  }

  -- The scenario becomes active, and its timer is armed.
  abbrev pub activate :
      ScenarioRequest → Stamp → Lab F × ChaosCommand F → Lab F × Option (ScenarioResult F)
  activate req t (l, cmd) =
      let id = l.engine.run_id + 1 in
      let result = result_of req id t cmd in
      (
        record l {
          engine = record l.engine {
            run_id = id;
            active = some result;
            timer =
                some (record { timer_run = id; delay = wrap64 (mul_pos (seconds_of req) second) });
          };
        },
        some result,
      )

  abbrev pub or_unknown :
      Lab F → Option (Lab F × Option (ScenarioResult F)) → Lab F × Option (ScenarioResult F)
  or_unknown l none = (l, none)
  or_unknown l (some r) = r

  -- `Run`; an error is `none`.
  unfoldable pub run : Lab F → ScenarioRequest → Stamp → Lab F × Option (ScenarioResult F)
  unfolding stop_locked restore effect
  run l req t =
      let stopped = record l { engine = stop_locked l.engine } in
      if str_eq req.scenario "restore"
      then (
        restore stopped t,
        some (record {
          run_id = 0;
          scenario = "restore";
          started_at = t.now;
          ends_at = pos 0;
          command = normal_command;
        }),
      )
      else or_unknown stopped (option_map (activate req t) (effect stopped req.scenario t))

  abbrev pub is_run : Option (ScenarioResult F) → ℕ → Bool
  is_run none id = false
  is_run (some r) id = r.run_id == id

  unfoldable pub auto_restore : Lab F → ℕ → Stamp → Lab F
  unfolding restore
  auto_restore l id t = if is_run l.engine.active id then restore l t else l
