-- ===== src/Chaos/Numbering.antt =====
-- Runs are numbered: no callback is of a run that has not started.
use mathlib.Core.Option.{map as option_map}
use signalmesh.Base.{
  ℕ, zero, suc, ◌≤◌, ◌≡◌, refl, subst, false, Option, none, some, List, [], ◌∷◌, String, get_elem?,
  All, All-append, arith, str_eq, Bool-cases, inl, inr,
}
use signalmesh.Base.Float.{Float64}
use signalmesh.Cluster.Commands.{ChaosCommand}
use signalmesh.Chaos.{
  ScenarioRequest, ScenarioResult, Timer, Lab, Stamp, stop_locked, command_for_scenario, publish,
  restore_hook, restore, effect_of, other_effect, effect, activate, or_unknown, run, is_run,
  auto_restore,
}
use signalmesh.Chaos.Timers.{Event, expire_timer, run_callback, step, steps, remove_at}
use signalmesh.Chaos.Restoring.{stopped, name-effect, name_after}

pub All-remove_at : (P : ℕ → Type 0) (ids : List ℕ) (i : ℕ) → All P ids → All P (remove_at ids i)
unfolding remove_at
All-remove_at P [] i h = tt
All-remove_at P (x ∷ xs) zero h = h.1
All-remove_at P (x ∷ xs) (suc i) h = (h.0, All-remove_at P xs i h.1)

All-mono : (m n : ℕ) (ids : List ℕ) → m ≤ n → All (λ id. id ≤ m) ids → All (λ id. id ≤ n) ids
All-mono m n [] l h = tt
All-mono m n (x ∷ xs) l h = (omega (arith, h.0), All-mono m n xs l h.1)

-- The run of an armed timer.
abbrev pub armed_run : Option Timer → List ℕ
armed_run none = []
armed_run (some tm) = tm.timer_run ∷ []

module _ {F : Type 0} ⦃fl : Float64 F⦄ where
  -- No callback is of a run that has not started.
  pub record IsNumbered (l : Lab F) : Type 0 where
    pub waiting : All (λ id. id ≤ l.engine.run_id) l.due
    pub armed : All (λ id. id ≤ l.engine.run_id) (armed_run l.engine.timer)

  -- What a scenario leaves as it was, and what it arms.
  pub record IsStarted (l l' : Lab F) (r : ScenarioResult F) : Type 0 where
    pub active : l'.engine.active ≡ some r
    pub next : r.run_id ≡ suc l.engine.run_id
    pub counted : l'.engine.run_id ≡ suc l.engine.run_id
    pub due : l'.due ≡ l.due
    pub armed : armed_run l'.engine.timer ≡ r.run_id ∷ []
    pub named : l'.mock.name ≡ l.mock.name

  -- The effect of a scenario is neither on the callbacks nor on the number of runs.
  abbrev IsKept : Lab F → Option (Lab F × ChaosCommand F) → Type 0
  IsKept l none = Unit
  IsKept l (some (l', cmd)) = (l'.due ≡ l.due) × (l'.engine.run_id ≡ l.engine.run_id)

  effect_of-IsKept :
      (l : Lab F) (scenario : String) (t : Stamp) (cmd : Option (ChaosCommand F))
      → IsKept l (effect_of l scenario t cmd)
  unfolding other_effect publish
  effect_of-IsKept l scenario t none = ground arith
  effect_of-IsKept l scenario t (some cmd) = (refl, refl)

  effect-IsKept : (l : Lab F) (scenario : String) (t : Stamp) → IsKept l (effect l scenario t)
  unfolding effect
  effect-IsKept l scenario t = effect_of-IsKept l scenario t (command_for_scenario scenario)

  activate-IsStarted :
      (l : Lab F) (req : ScenarioRequest) (t : Stamp) (e : Option (Lab F × ChaosCommand F))
      (r : ScenarioResult F)
      → IsKept l e
      → name_after e l.mock.name ≡ l.mock.name
      → (or_unknown l (option_map (activate req t) e)).1 ≡ some r
      → IsStarted l (or_unknown l (option_map (activate req t) e)).0 r
  unfolding name_after
  activate-IsStarted l req t none r k n h = absurd (ground (arith, h))
  activate-IsStarted l req t (some (l', cmd)) r k n h = record {
    active = h;
    next = ground (arith, h, k.1);
    counted = ground (arith, k.1);
    due = k.0;
    armed = ground (arith, h);
    named = n;
  }

  pub run-IsStarted :
      (l : Lab F) (req : ScenarioRequest) (t : Stamp) (r : ScenarioResult F)
      → str_eq req.scenario "restore" ≡ false
      → (run l req t).1 ≡ some r
      → IsStarted l (run l req t).0 r
  unfolding run stop_locked
  run-IsStarted l req t r other h =
      let s = stopped l in
      let e = effect s req.scenario t in
      let started : IsStarted s (or_unknown s (option_map (activate req t) e)).0 r =
        activate-IsStarted s req t e r (effect-IsKept s req.scenario t)
          (name-effect s req.scenario t) (rw other at h) in
      rw other (record {
        active = started.active;
        next = started.next;
        counted = started.counted;
        due = started.due;
        armed = started.armed;
        named = started.named;
      })

  restore-IsNumbered : (l : Lab F) (t : Stamp) → IsNumbered l → IsNumbered (restore l t)
  unfolding restore restore_hook publish stop_locked
  restore-IsNumbered l t n = record { waiting = n.waiting; armed = tt }

  activate-IsNumbered :
      (l : Lab F) (req : ScenarioRequest) (t : Stamp) (e : Option (Lab F × ChaosCommand F))
      → IsKept l e
      → IsNumbered l
      → IsNumbered (or_unknown l (option_map (activate req t) e)).0
  activate-IsNumbered l req t none k n = n
  activate-IsNumbered l req t (some (l', cmd)) k n = record {
    waiting = rw (k.0, k.1) (All-mono _ _ l.due (omega arith) n.waiting);
    armed = (omega arith, tt);
  }

  run-IsNumbered :
      (l : Lab F) (req : ScenarioRequest) (t : Stamp) → IsNumbered l → IsNumbered (run l req t).0
  unfolding run stop_locked
  run-IsNumbered l req t n =
      let s = stopped l in
      let m : IsNumbered s = record { waiting = n.waiting; armed = tt } in
      elim (Bool-cases (str_eq req.scenario "restore")) [
        | inl back ↦ rw back (restore-IsNumbered s t m)
        | inr other ↦ rw other (
            activate-IsNumbered s req t (effect s req.scenario t) (effect-IsKept s req.scenario t)
              m)
      ]

  auto_restore-IsNumbered :
      (l : Lab F) (id : ℕ) (t : Stamp) → IsNumbered l → IsNumbered (auto_restore l id t)
  unfolding auto_restore
  auto_restore-IsNumbered l id t n = elim (Bool-cases (is_run l.engine.active id)) [
    | inl mine ↦ rw mine (restore-IsNumbered l t n)
    | inr other ↦ rw other n
  ]

  expired-IsNumbered :
      (l : Lab F) (tm : Option Timer)
      → l.engine.timer ≡ tm
      → IsNumbered l
      → IsNumbered (expire_timer tm l)
  unfolding expire_timer
  expired-IsNumbered l none e n = n
  expired-IsNumbered l (some tm) e n = record {
    waiting =
        All-append _ l.due (tm.timer_run ∷ []) n.waiting
          (subst (λ x. All (λ id. id ≤ l.engine.run_id) (armed_run x)) e n.armed);
    armed = tt;
  }

  called-IsNumbered :
      (l : Lab F) (i : ℕ) (id : Option ℕ) (t : Stamp)
      → IsNumbered l
      → IsNumbered (run_callback l i id t)
  unfolding run_callback
  called-IsNumbered l i none t n = n
  called-IsNumbered l i (some id) t n =
      auto_restore-IsNumbered (record l { due = remove_at l.due i }) id t
        (record { waiting = All-remove_at _ l.due i n.waiting; armed = n.armed })

  step-IsNumbered : (l : Lab F) (e : Event) → IsNumbered l → IsNumbered (step l e)
  unfolding step
  step-IsNumbered l (Event.requested req t) n = run-IsNumbered l req t n
  step-IsNumbered l Event.expired n = expired-IsNumbered l l.engine.timer refl n
  step-IsNumbered l (Event.called i t) n = called-IsNumbered l i (get_elem? l.due i) t n

  pub steps-IsNumbered : (l : Lab F) (es : List Event) → IsNumbered l → IsNumbered (steps l es)
  unfolding steps
  steps-IsNumbered l [] n = n
  steps-IsNumbered l (e ∷ es) n = steps-IsNumbered (step l e) es (step-IsNumbered l e n)
