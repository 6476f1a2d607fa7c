-- ===== src/Chaos/Timers.antt =====
-- The lab over time: scenarios are requested, the timer expires, and callbacks that wait for the
-- mutex get it in any order.
use signalmesh.Base.{ℕ, zero, suc, Option, none, some, List, [], ◌∷◌, ◌++◌, get_elem?}
use signalmesh.Base.Float.{Float64}
use signalmesh.Breaker.{Breaker}
use signalmesh.Cluster.{Store}
use signalmesh.Providers.Mock.{new_mock_provider}
use signalmesh.Chaos.{ScenarioRequest, Timer, Lab, Stamp, run, auto_restore}

-- What happens: a call of `Run`, the end of the armed timer, and the mutex for the waiting callback
-- at a position.
pub data Event : Type 0 where
  requested : ScenarioRequest → Stamp → Event
  expired : Event
  called : ℕ → Stamp → Event

unfoldable pub remove_at : List ℕ → ℕ → List ℕ
remove_at [] i = []
remove_at (x ∷ xs) zero = xs
remove_at (x ∷ xs) (suc i) = x ∷ remove_at xs i

module _ {F : Type 0} where
  unfoldable pub expire_timer : Option Timer → Lab F → Lab F
  expire_timer none l = l
  expire_timer (some t) l = record l {
    engine = record l.engine { timer = none };
    due = l.due ++ t.timer_run ∷ [];
  }

module _ {F : Type 0} ⦃fl : Float64 F⦄ where
  -- The lab that `main` sets up.
  unfoldable pub new_lab : Store F → Breaker → Breaker → Lab F
  unfolding new_mock_provider
  new_lab s primary local_breaker = record {
    engine = record { run_id = 0; active = none; timer = none; load = none };
    due = [];
    store = s;
    mock = new_mock_provider "mock-primary";
    primary = primary;
    local_breaker = local_breaker;
  }

  unfoldable pub run_callback : Lab F → ℕ → Option ℕ → Stamp → Lab F
  run_callback l i none t = l
  run_callback l i (some id) t = auto_restore (record l { due = remove_at l.due i }) id t

  unfoldable pub step : Lab F → Event → Lab F
  unfolding run expire_timer run_callback auto_restore remove_at
  step l (Event.requested req t) = (run l req t).0
  step l Event.expired = expire_timer l.engine.timer l
  step l (Event.called i t) = run_callback l i (get_elem? l.due i) t

  unfoldable pub steps : Lab F → List Event → Lab F
  unfolding step
  steps l [] = l
  steps l (e ∷ es) = steps (step l e) es
