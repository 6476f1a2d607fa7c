-- ===== src/Chaos/Restoring.antt =====
-- When no scenario is active, nothing of the scenarios is left.
use mathlib.Core.Option.{map as option_map}
use signalmesh.Base.{
  ℕ, ◌≡◌, refl, ◌∙◌, true, false, Option, none, some, List, [], ◌∷◌, String, get_elem?, arith,
  eq_iff, str_eq, Bool-cases, inl, inr,
}
use signalmesh.Base.Int.{pos}
use signalmesh.Base.Float.{Float64, lit}
use signalmesh.Breaker.{Breaker}
use signalmesh.Cluster.{Store, set_heartbeat_enabled, mark_seen_local}
use signalmesh.Cluster.Commands.{ChaosCommand, publish_chaos, run_handlers}
use signalmesh.Providers.Mock.{inject_failure, new_mock_provider}
use signalmesh.Chaos.{
  agent_loop, command, ScenarioRequest, Timer, Lab, Stamp, stop_locked, command_for_scenario,
  normal_command, on_chaos, publish, restore_hook, restore, effect_of, effect, other_effect,
  activate, or_unknown, run, is_run, auto_restore,
}
use signalmesh.Chaos.Timers.{Event, new_lab, expire_timer, run_callback, step, steps, remove_at}

module _ {F : Type 0} ⦃fl : Float64 F⦄ where
  -- Heartbeats are sent, the mock provider is as it was made, no load runs and no timer is armed.
  pub record IsCalm (l : Lab F) : Type 0 where
    pub heartbeats : l.store.heartbeat_enabled ≡ true
    pub latency : l.mock.latency_base_ms ≡ pos 150
    pub errors : l.mock.error_rate ≡ lit 0 0
    pub contracts : l.mock.contract_fail ≡ false
    pub no_load : l.engine.load ≡ none
    pub no_timer : l.engine.timer ≡ none

  pub record IsSound (l : Lab F) : Type 0 where
    pub wired : l.mock.name ≡ "mock-primary"
    pub calm : l.engine.active ≡ none → IsCalm l

  pub name-publish :
      (l : Lab F) (cmd : ChaosCommand F) (t : Stamp) → (publish l cmd t).mock.name ≡ l.mock.name
  unfolding publish on_chaos publish_chaos run_handlers
  name-publish l cmd t = ground arith

  pub restore-IsCalm : (l : Lab F) (t : Stamp) → l.mock.name ≡ "mock-primary" → IsCalm (restore l t)
  unfolding restore publish normal_command on_chaos publish_chaos run_handlers inject_failure
      stop_locked set_heartbeat_enabled restore_hook mark_seen_local
  restore-IsCalm l t w = record {
    heartbeats = refl;
    latency = ground (arith, eq_iff "mock-primary" l.mock.name);
    errors = ground (arith, eq_iff "mock-primary" l.mock.name);
    contracts = ground (arith, eq_iff "mock-primary" l.mock.name);
    no_load = refl;
    no_timer = refl;
  }

  name-restore : (l : Lab F) (t : Stamp) → (restore l t).mock.name ≡ l.mock.name
  unfolding restore restore_hook publish
  name-restore l t = name-publish (record l { engine = stop_locked l.engine }) normal_command t

  abbrev pub stopped : Lab F → Lab F
  stopped l = record l { engine = stop_locked l.engine }

  stopped-IsSound : (l : Lab F) → IsSound l → IsSound (stopped l)
  unfolding stop_locked
  stopped-IsSound l s = record {
    wired = s.wired;
    calm = λ e.
        let c = s.calm e in
        record {
          heartbeats = c.heartbeats;
          latency = c.latency;
          errors = c.errors;
          contracts = c.contracts;
          no_load = refl;
          no_timer = refl;
        };
  }

  restored-IsSound : (l : Lab F) (t : Stamp) → l.mock.name ≡ "mock-primary" → IsSound (restore l t)
  restored-IsSound l t w = record { wired = name-restore l t ∙ w; calm = λ e. restore-IsCalm l t w }

  -- The provider that an effect leaves.
  unfoldable pub name_after : Option (Lab F × ChaosCommand F) → String → String
  name_after none name = name
  name_after (some (l, cmd)) name = l.mock.name

  name-effect_of :
      (l : Lab F) (scenario : String) (t : Stamp) (cmd : Option (ChaosCommand F))
      → name_after (effect_of l scenario t cmd) l.mock.name ≡ l.mock.name
  unfolding other_effect name_after
  name-effect_of l scenario t none = ground (
    arith,
    name-publish (record l { engine = record l.engine { load = some agent_loop } })
        (command (pos 150) (lit 1 0) false) t,
  )
  name-effect_of l scenario t (some cmd) = name-publish l cmd t

  pub name-effect :
      (l : Lab F) (scenario : String) (t : Stamp)
      → name_after (effect l scenario t) l.mock.name ≡ l.mock.name
  unfolding effect
  name-effect l scenario t = name-effect_of l scenario t (command_for_scenario scenario)

  started-IsSound :
      (l : Lab F) (req : ScenarioRequest) (t : Stamp) (r : Option (Lab F × ChaosCommand F))
      → IsSound l
      → name_after r l.mock.name ≡ l.mock.name
      → IsSound (or_unknown l (option_map (activate req t) r)).0
  unfolding name_after
  started-IsSound l req t none s n = s
  started-IsSound l req t (some (l', cmd)) s n = record {
    wired = n ∙ s.wired;
    calm = λ e. absurd (ground (arith, e));
  }

  run-IsSound :
      (l : Lab F) (req : ScenarioRequest) (t : Stamp) → IsSound l → IsSound (run l req t).0
  unfolding run
  run-IsSound l req t s = elim (Bool-cases (str_eq req.scenario "restore")) [
    | inl back ↦ rw back (restored-IsSound (stopped l) t s.wired)
    | inr other ↦ rw other (
        started-IsSound (stopped l) req t (effect (stopped l) req.scenario t) (stopped-IsSound l s)
          (name-effect (stopped l) req.scenario t))
  ]

  auto_restore-IsSound :
      (l : Lab F) (id : ℕ) (t : Stamp) → IsSound l → IsSound (auto_restore l id t)
  unfolding auto_restore
  auto_restore-IsSound l id t s = elim (Bool-cases (is_run l.engine.active id)) [
    | inl mine ↦ rw mine (restored-IsSound l t s.wired)
    | inr other ↦ rw other s
  ]

  expired-IsSound : (l : Lab F) (tm : Option Timer) → IsSound l → IsSound (expire_timer tm l)
  unfolding expire_timer
  expired-IsSound l none s = s
  expired-IsSound l (some tm) s = record {
    wired = s.wired;
    calm = λ e.
        let c = s.calm e in
        record {
          heartbeats = c.heartbeats;
          latency = c.latency;
          errors = c.errors;
          contracts = c.contracts;
          no_load = c.no_load;
          no_timer = refl;
        };
  }

  due-IsSound : (l : Lab F) (due : List ℕ) → IsSound l → IsSound (record l { due = due })
  due-IsSound l due s = record {
    wired = s.wired;
    calm = λ e.
        let c = s.calm e in
        record {
          heartbeats = c.heartbeats;
          latency = c.latency;
          errors = c.errors;
          contracts = c.contracts;
          no_load = c.no_load;
          no_timer = c.no_timer;
        };
  }

  called-IsSound :
      (l : Lab F) (i : ℕ) (id : Option ℕ) (t : Stamp) → IsSound l → IsSound (run_callback l i id t)
  unfolding run_callback
  called-IsSound l i none t s = s
  called-IsSound l i (some id) t s =
      auto_restore-IsSound (record l { due = remove_at l.due i }) id t
        (due-IsSound l (remove_at l.due i) s)

  step-IsSound : (l : Lab F) (e : Event) → IsSound l → IsSound (step l e)
  unfolding step
  step-IsSound l (Event.requested req t) s = run-IsSound l req t s
  step-IsSound l Event.expired s = expired-IsSound l l.engine.timer s
  step-IsSound l (Event.called i t) s = called-IsSound l i (get_elem? l.due i) t s

  pub steps-IsSound : (l : Lab F) (es : List Event) → IsSound l → IsSound (steps l es)
  unfolding steps
  steps-IsSound l [] s = s
  steps-IsSound l (e ∷ es) s = steps-IsSound (step l e) es (step-IsSound l e s)

  pub new_lab-IsSound :
      (s : Store F) (primary local_breaker : Breaker)
      → s.heartbeat_enabled ≡ true
      → IsSound (new_lab s primary local_breaker)
  unfolding new_lab new_mock_provider
  new_lab-IsSound s primary local_breaker h = record {
    wired = refl;
    calm = λ e. record {
      heartbeats = h;
      latency = refl;
      errors = refl;
      contracts = refl;
      no_load = refl;
      no_timer = refl;
    };
  }

  -- Whatever scenarios have been requested, timers have expired and callbacks have run, in whatever
  -- order: when no scenario is active, heartbeats are sent, the mock provider has latency 150, error
  -- rate 0 and no contract failures, no load runs and no timer is armed.
  pub quiet_is_normal :
      (s : Store F) (primary local_breaker : Breaker) (es : List Event)
      → s.heartbeat_enabled ≡ true
      → (steps (new_lab s primary local_breaker) es).engine.active ≡ none
      → IsCalm (steps (new_lab s primary local_breaker) es)
  quiet_is_normal s primary local_breaker es h e =
      (steps-IsSound _ es (new_lab-IsSound s primary local_breaker h)).calm e
