-- ===== src/Examples/Drills.antt =====
-- Chaos scenarios on a small node.
use signalmesh.Base.{
  ℕ, ◌*◌, ◌≡◌, refl, true, false, arith, none, some, List, [], ◌∷◌, String, length,
}
use signalmesh.Base.Int.{pos}
use signalmesh.Base.Clock.{Time, second}
use signalmesh.Breaker.{Breaker, default_config}
use signalmesh.Breaker
use signalmesh.Cluster.{Store, new_store}
use signalmesh.Chaos.{ScenarioRequest, ScenarioResult, Lab, Stamp, normal_command, run}
use signalmesh.Chaos.{agent_loop}
use signalmesh.Chaos.Load.{Tick, load_deadline, worker}
use signalmesh.Chaos.Bursts.{IsBurst, worker-IsBurst}
use signalmesh.Chaos.Timers.{Event, new_lab, step, steps}
use signalmesh.Chaos.Restoring.{IsCalm, quiet_is_normal}
use signalmesh.Chaos.Callbacks.{IsRestored, calls, callbacks_spare, auto_restores}
use signalmesh.Chaos.Stranded.{unknown_strands}
use signalmesh.Budget.{Manager, new_manager}
use signalmesh.Console.{set_budget, inject, start_scenario}
use signalmesh.Console.Refusals.{IsUnharmed, refusals-IsUnharmed}
use signalmesh.Base.Float.{lit}
use signalmesh.Examples.Cents.{Cents, cents_float}

abbrev store : Store Cents
store = new_store "node-1" (pos 1)

abbrev fresh : Breaker
fresh = Breaker.new default_config 0

abbrev stamp : ℕ → Stamp
stamp s = record {
  now = s * second;
  event = "chaos-1";
  published = s * second;
  marked = s * second;
  primary_reset = s * second;
  local_reset = s * second;
}

abbrev asked : String → ScenarioRequest
asked scenario = record { scenario = scenario; duration_seconds = pos 10 }

-- An outage whose timer expires, and a second scenario before the callback of the first runs.
abbrev history : List Event
history = Event.requested (asked "provider-outage") (stamp 1) ∷ Event.expired ∷ []

abbrev lab : Lab Cents
lab = new_lab store fresh fresh

abbrev later : Lab Cents
later = steps lab history

abbrev done : List Event
done =
    Event.requested (asked "provider-outage") (stamp 1)
    ∷ Event.expired
    ∷ Event.called 0 (stamp 11)
    ∷ []

calm_done : (steps lab done).engine.active ≡ none
unfolding steps step new_store new_lab
calm_done = refl

heartbeats : store.heartbeat_enabled ≡ true
unfolding new_store
heartbeats = refl

abbrev started : ScenarioResult Cents
started = record {
  run_id = 2;
  scenario = "node-failure";
  started_at = 12 * second;
  ends_at = pos (22 * second);
  command = normal_command;
}

starts : (run later (asked "node-failure") (stamp 12)).1 ≡ some started
unfolding steps step run new_lab
starts = refl

-- A scenario that is active when its callback does not wait.
abbrev drill : Lab Cents
drill = (run lab (asked "latency-spike") (stamp 1)).0

abbrev ticks : List Event
ticks = Event.expired ∷ Event.called 0 (stamp 30) ∷ []

nobody_waits : drill.due ≡ []
unfolding run new_lab new_store
nobody_waits = refl

quiet_is_normal_example : IsCalm (steps lab done)
quiet_is_normal_example = quiet_is_normal store fresh fresh done heartbeats calm_done

callbacks_spare_example :
    (steps
      (run later (asked "node-failure") (stamp 12)).0
      (calls ((0, stamp 13) ∷ []))).engine.active
    ≡ some started
callbacks_spare_example =
    callbacks_spare store fresh fresh history (asked "node-failure") (stamp 12) started
      ((0, stamp 13) ∷ []) refl starts

auto_restores_example :
    let l' = (run later (asked "node-failure") (stamp 12)).0 in
    IsRestored (steps l' (Event.expired ∷ Event.called (length l'.due) (stamp 22) ∷ []))
auto_restores_example =
    auto_restores store fresh fresh history (asked "node-failure") (stamp 12) (stamp 22) started
      refl starts heartbeats

unknown_strands_example :
    let after = run drill (asked "provider_outage") (stamp 2) in
    (after.1 ≡ none)
    × (steps after.0 ticks ≡ after.0)
    × (after.0 ≡ record drill { engine = record drill.engine { timer = none; load = none } })
unknown_strands_example =
    unknown_strands drill (asked "provider_outage") (stamp 2) ticks
      (refl, (refl, (refl, (refl, (refl, (refl, (refl, tt))))))) nobody_waits (tt, (tt, tt))

abbrev budgets : Manager Cents
budgets = new_manager (lit 10 0) (lit 1 0)

refusals-IsUnharmed_example :
    IsUnharmed
      (set_budget budgets "POST" (some ("", lit 2 0)))
      (inject drill "POST" none (stamp 3))
      (start_scenario drill "POST" (some (asked "provider_outage")) (stamp 3))
      budgets
      drill
refusals-IsUnharmed_example =
    refusals-IsUnharmed budgets drill "POST" (stamp 3) (some ("", lit 2 0)) none
      (some (asked "provider_outage"))

abbrev tick : Time → Tick
tick now = record { now = now; done_before = false; done_in_pause = false }

-- Rounds of the agent loop, half a second after each other.
abbrev rounds_of_loop : List Tick
rounds_of_loop = tick 1000000000 ∷ tick 1500000000 ∷ tick 2000000000 ∷ []

worker-IsBurst_example :
    IsBurst agent_loop 1 rounds_of_loop (worker (load_deadline 1000000000 (pos 1)) rounds_of_loop)
worker-IsBurst_example =
    worker-IsBurst agent_loop 1000000000 1 rounds_of_loop (omega arith)
      (omega arith, (omega arith, (omega arith, tt)))

-- The last of them finds its second over.
loop_sends :
    worker (load_deadline 1000000000 (pos 1)) rounds_of_loop ≡ (1000000000 ∷ 1500000000 ∷ [], true)
unfolding worker
loop_sends = refl
