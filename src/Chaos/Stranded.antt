-- ===== src/Chaos/Stranded.antt =====
-- Which callbacks end a scenario, and one request after which none does.
use mathlib.Core.Option.{map as option_map}
use signalmesh.Base.{
  ◌≡◌, refl, sym, ap, ◌∙◌, false, none, List, [], ◌∷◌, String, get_elem?, All, All-get, arith,
  str_eq,
}
use signalmesh.Base.Float.{Float64}
use signalmesh.Chaos.{
  known_scenarios, ScenarioRequest, Lab, Stamp, stop_locked, command_for_scenario, other_effect,
  effect, activate, or_unknown, run,
}
use signalmesh.Chaos.Timers.{Event, expire_timer, run_callback, step, steps}
use signalmesh.Chaos.Restoring.{stopped}

-- What happens by itself: timers expire and callbacks run.
abbrev pub IsTick : Event → Type 0
IsTick (Event.requested req t) = ⊥
IsTick Event.expired = Unit
IsTick (Event.called i t) = Unit

module _ {F : Type 0} ⦃fl : Float64 F⦄ where
  unknown_effect :
      (l : Lab F) (scenario : String) (t : Stamp)
      → All (λ k. str_eq scenario k ≡ false) known_scenarios
      → effect l scenario t ≡ none
  unfolding effect command_for_scenario other_effect
  unknown_effect l scenario t u = ground arith

  unknown_run :
      (l : Lab F) (req : ScenarioRequest) (t : Stamp)
      → All (λ k. str_eq req.scenario k ≡ false) known_scenarios
      → run l req t ≡ (stopped l, none)
  unfolding run
  unknown_run l req t u =
      let other : str_eq req.scenario "restore" ≡ false =
        All-get (λ k. str_eq req.scenario k ≡ false) known_scenarios 6 "restore" u refl in
      rw other (
        ap (λ r. or_unknown (stopped l) (option_map (activate req t) r))
          (unknown_effect (stopped l) req.scenario t u))

  -- Nothing is armed and nothing waits.
  idle_step : (l : Lab F) (e : Event) → l.engine.timer ≡ none → l.due ≡ [] → IsTick e → step l e ≡ l
  unfolding step expire_timer run_callback
  idle_step l (Event.requested req t) idle nobody k = absurd k
  idle_step l Event.expired idle nobody k = ap (λ tm. expire_timer tm l) idle
  idle_step l (Event.called i t) idle nobody k = ap (λ d. run_callback l i (get_elem? d i) t) nobody

  idle_steps :
      (l : Lab F) (es : List Event)
      → l.engine.timer ≡ none
      → l.due ≡ []
      → All IsTick es
      → steps l es ≡ l
  unfolding steps
  idle_steps l [] idle nobody k = refl
  idle_steps l (e ∷ es) idle nobody k =
      ap (λ x. steps x es) (idle_step l e idle nobody k.0) ∙ idle_steps l es idle nobody k.1

  -- The request of an unknown scenario is refused, but it stops the timer of the active scenario: if
  -- no callback waits, the scenario then stays active, with its effects, however long nothing else is
  -- requested.
  pub unknown_strands :
      (l : Lab F) (req : ScenarioRequest) (t : Stamp) (es : List Event)
      → All (λ k. str_eq req.scenario k ≡ false) known_scenarios
      → l.due ≡ []
      → All IsTick es
      → let after = run l req t in
        (after.1 ≡ none)
        × (steps after.0 es ≡ after.0)
        × (after.0 ≡ record l { engine = record l.engine { timer = none; load = none } })
  unfolding stop_locked
  unknown_strands l req t es u nobody k =
      let e = unknown_run l req t u in
      (
        ap (λ x. x.1) e,
        ap (λ x. steps x.0 es) e ∙ idle_steps (stopped l) es refl nobody k ∙ ap (λ x. x.0) (sym e),
        ap (λ x. x.0) e,
      )
