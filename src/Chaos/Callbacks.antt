-- ===== src/Chaos/Callbacks.antt =====
-- The callback of a scenario's own timer ends it, and no other does.
use signalmesh.Base.{
  ℕ, suc, ◌<◌, ◌≤◌, ◌≡◌, refl, sym, subst, ◌∙◌, true, false, Option, none, some, List, [], ◌∷◌,
  ◌++◌, get_elem?, All, All-get, arith, str_eq, length,
}
use signalmesh.Base.Float.{Float64}
use signalmesh.Breaker.{Breaker}
use signalmesh.Cluster.{Store}
use signalmesh.Chaos.{
  ScenarioRequest, ScenarioResult, Timer, Lab, Stamp, restore, run, is_run, auto_restore,
}
use signalmesh.Chaos.Timers.{Event, new_lab, expire_timer, run_callback, step, steps, remove_at}
use signalmesh.Chaos.Numbering.{
  All-remove_at, armed_run, IsNumbered, run-IsStarted, steps-IsNumbered,
}
use signalmesh.Chaos.Restoring.{IsCalm, restore-IsCalm, steps-IsSound, new_lab-IsSound}

get_last : (ids : List ℕ) (id : ℕ) → get_elem? (ids ++ id ∷ []) (length ids) ≡ some id
get_last [] id = refl
get_last (x ∷ xs) id = get_last xs id

abbrev pub calls : List (ℕ × Stamp) → List Event
calls [] = []
calls (c ∷ cs) = Event.called c.0 c.1 ∷ calls cs

All-below : (m n : ℕ) (ids : List ℕ) → n ≡ suc m → All (λ id. id ≤ m) ids → All (λ id. id < n) ids
All-below m n [] e h = tt
All-below m n (x ∷ xs) e h = (omega (arith, h.0, e), All-below m n xs e h.1)

module _ {F : Type 0} ⦃fl : Float64 F⦄ where
  -- The scenario is active, and all callbacks that wait are of earlier runs.
  record IsSpared (r : ScenarioResult F) (l : Lab F) : Type 0 where
    active : l.engine.active ≡ some r
    earlier : All (λ id. id < r.run_id) l.due

  called-IsSpared :
      (r : ScenarioResult F) (l : Lab F) (i : ℕ) (id : Option ℕ) (t : Stamp)
      → get_elem? l.due i ≡ id
      → IsSpared r l
      → IsSpared r (run_callback l i id t)
  unfolding run_callback auto_restore
  called-IsSpared r l i none t e s = s
  called-IsSpared r l i (some id) t e s =
      let old : is_run l.engine.active id ≡ false =
        ground (arith, All-get (λ x. x < r.run_id) l.due i id s.earlier e, s.active) in
      rw old (record { active = s.active; earlier = All-remove_at _ l.due i s.earlier })

  calls-IsSpared :
      (r : ScenarioResult F) (l : Lab F) (cs : List (ℕ × Stamp))
      → IsSpared r l
      → IsSpared r (steps l (calls cs))
  unfolding steps step
  calls-IsSpared r l [] s = s
  calls-IsSpared r l (c ∷ cs) s =
      calls-IsSpared r (step l (Event.called c.0 c.1)) cs
        (called-IsSpared r l c.0 (get_elem? l.due c.0) c.1 refl s)

  -- No scenario is active, and nothing of one is left.
  abbrev pub IsRestored : Lab F → Type 0
  IsRestored l = (l.engine.active ≡ none) × IsCalm l

  own_callback :
      (l : Lab F) (r : ScenarioResult F) (id : ℕ) (t : Stamp)
      → l.engine.active ≡ some r
      → id ≡ r.run_id
      → l.mock.name ≡ "mock-primary"
      → IsRestored (auto_restore l id t)
  unfolding auto_restore restore
  own_callback l r id t a e w =
      let mine : is_run l.engine.active id ≡ true = ground (arith, a, e) in
      rw mine (refl, restore-IsCalm l t w)

  own_timer :
      (l : Lab F) (r : ScenarioResult F) (tm : Option Timer) (t : Stamp)
      → armed_run tm ≡ r.run_id ∷ []
      → l.engine.active ≡ some r
      → l.mock.name ≡ "mock-primary"
      → IsRestored (step (expire_timer tm l) (Event.called (length l.due) t))
  unfolding step expire_timer run_callback
  own_timer l r none t e a w = absurd (ground (arith, e))
  own_timer l r (some tm) t e a w =
      let next = expire_timer (some tm) l in
      subst (λ id. IsRestored (run_callback next (length l.due) id t))
        (sym (get_last l.due tm.timer_run))
        (own_callback (record next { due = remove_at next.due (length l.due) }) r tm.timer_run t a
          (ground (arith, e)) w)

  module _ (s : Store F) (primary local_breaker : Breaker) (es : List Event) where
    new_lab-IsNumbered : IsNumbered (new_lab s primary local_breaker)
    unfolding new_lab
    new_lab-IsNumbered = record { waiting = tt; armed = tt }

    -- After any history, a scenario that has just started stays active while callbacks of timers that
    -- expired before its start run, in whatever order and however many.
    pub callbacks_spare :
        (req : ScenarioRequest) (t : Stamp) (r : ScenarioResult F) (cs : List (ℕ × Stamp))
        → str_eq req.scenario "restore" ≡ false
        → let l = steps (new_lab s primary local_breaker) es in
          (run l req t).1 ≡ some r → (steps (run l req t).0 (calls cs)).engine.active ≡ some r
    callbacks_spare req t r cs other h =
        let l = steps (new_lab s primary local_breaker) es in
        let n = steps-IsNumbered _ es new_lab-IsNumbered in
        let started = run-IsStarted l req t r other h in
        (calls-IsSpared r (run l req t).0 cs (record {
          active = started.active;
          earlier =
              subst (λ d. All (λ id. id < r.run_id) d) (sym started.due)
                (All-below l.engine.run_id r.run_id l.due started.next n.waiting);
        })).active

    -- After any history, when the timer of a scenario that has just started expires and its callback
    -- runs, no scenario is active, heartbeats are sent and the mock provider is normal.
    pub auto_restores :
        (req : ScenarioRequest) (t t' : Stamp) (r : ScenarioResult F)
        → str_eq req.scenario "restore" ≡ false
        → let l = steps (new_lab s primary local_breaker) es in
          let l' = (run l req t).0 in
          (run l req t).1 ≡ some r
          → s.heartbeat_enabled ≡ true
          → IsRestored (steps l' (Event.expired ∷ Event.called (length l'.due) t' ∷ []))
    unfolding steps step
    auto_restores req t t' r other h beats =
        let l = steps (new_lab s primary local_breaker) es in
        let l' = (run l req t).0 in
        let started = run-IsStarted l req t r other h in
        own_timer l' r l'.engine.timer t' started.armed started.active (
          started.named
          ∙ (steps-IsSound _ es (new_lab-IsSound s primary local_breaker beats)).wired)
