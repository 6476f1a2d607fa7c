-- ===== src/Examples/Traffic.antt =====
-- Concurrent requests at the admission manager.
use signalmesh.Base.{ℕ, ◌+◌, ◌≡◌, refl, true, false, List, [], ◌∷◌, ◌++◌}
use signalmesh.Base.Int.{pos, ◌≤ℤ◌}
use signalmesh.Admission.{
  Class, Config, Manager, Ctx, Input, Place, new_manager, advance, advance_at, run,
}
use signalmesh.Admission.Steps.{Agrees, slots, active, waits, total}
use signalmesh.Admission.Bulkheads.{arrivals, bulkheads_hold, nothing_leaks}
use signalmesh.Admission.Isolation.{isolated}
use signalmesh.Admission.Passage.{seven, admits_and_releases}

-- One slot and one place in the queue.
abbrev narrow : Config
narrow = record { concurrency = pos 1; max_queue = pos 1 }

abbrev gate : Manager
gate = new_manager narrow narrow narrow (pos 5)

abbrev input : Input
input = record { ctx = Ctx.alive; takes_done = false }

abbrev canceled_input : Input
canceled_input = record { ctx = Ctx.canceled; takes_done = true }

abbrev steps_of : ℕ → List (ℕ × Input)
steps_of n = (n, input) ∷ (n, input) ∷ (n, input) ∷ (n, input) ∷ (n, input) ∷ []

abbrev three : List Class
three = Class.normal ∷ Class.normal ∷ Class.normal ∷ []

-- The first request takes the slot; the two others read the queue's length before either joins.
abbrev rush : List (ℕ × Input)
rush = steps_of 0 ++ (steps_of 1 ++ (steps_of 2 ++ (1, input) ∷ (2, input) ∷ []))

-- The queue then holds two requests, with one place.
queue_overshoots : ((run gate (arrivals three) rush).0.classes Class.normal).waiters ≡ pos 2
unfolding run advance_at advance new_manager
queue_overshoots = refl

bulkheads_hold_example :
    let (m, ps) = run gate (arrivals three) rush in
    Agrees m Class.normal
      (total (slots Class.normal) ps)
      (total active ps)
      (total (waits Class.normal) ps)
    × (pos (total (slots Class.normal) ps) ≤ℤ (gate.classes Class.normal).cfg.concurrency)
bulkheads_hold_example = bulkheads_hold narrow narrow narrow (pos 5) three rush Class.normal

-- Two requests: the first is released, the second is canceled in the queue.
abbrev two : List Class
two = Class.normal ∷ Class.normal ∷ []

abbrev cancel : List (ℕ × Input)
cancel =
    steps_of 0
    ++ (steps_of 1 ++ (1, input) ∷ (1, canceled_input) ∷ (1, input) ∷ (0, input) ∷ (0, input) ∷ [])

nothing_leaks_example : Agrees (run gate (arrivals two) cancel).0 Class.normal 0 0 0
unfolding run advance_at advance new_manager
nothing_leaks_example =
    nothing_leaks narrow narrow narrow (pos 5) two cancel Class.normal (tt, (tt, tt))

isolated_example :
    (run gate (arrivals three) rush).0.classes Class.critical ≡ gate.classes Class.critical
isolated_example = isolated rush gate (arrivals three) Class.critical (refl, (refl, (refl, tt)))

admits_and_releases_example :
    let (m', ps') = run gate (Place.entering Class.normal ∷ []) (seven input) in
    (ps' ≡ Place.finished ∷ [])
    × (m'.total_active ≡ gate.total_active)
    × ((m'.classes Class.normal).sem ≡ (gate.classes Class.normal).sem)
    × ((m'.classes Class.normal).waiters ≡ (gate.classes Class.normal).waiters)
    × ((m'.classes Class.normal).admitted ≡ (gate.classes Class.normal).admitted + 1)
unfolding new_manager
admits_and_releases_example =
    admits_and_releases input gate Class.normal Class.normal 0 refl refl refl refl
