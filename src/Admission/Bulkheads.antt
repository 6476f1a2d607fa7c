-- ===== src/Admission/Bulkheads.antt =====
-- What holds under every interleaving of requests.
use signalmesh.Base.{ℕ, ◌≡◌, refl, sym, List, [], ◌∷◌, map, All, arith}
use signalmesh.Base.Int.{ℤ, pos, ◌≤ℤ◌}
use signalmesh.Admission.{Class, Config, Manager, Input, Place, new_manager, advance_at, run}
use signalmesh.Admission.Steps.{
  slots, active, waits, total, Agrees, Agrees-cast, AllAgree, advance_at-AllAgree, IsBounded,
  advance_at-IsBounded,
}

-- All requests are seen.
abbrev pub Accounted : Manager → List Place → Type 0
Accounted m ps = AllAgree m (λ d. total (slots d) ps) (total active ps) (λ d. total (waits d) ps)

advance_at-Accounted :
    (n : ℕ) (i : Input) (m : Manager) (ps : List Place)
    → Accounted m ps
    → let (m', ps') = advance_at n i m ps in Accounted m' ps'
advance_at-Accounted n i m ps h = λ d.
    Agrees-cast
      (advance_at-AllAgree n i m ps (λ c. 0) (λ c. 0) 0
        (λ c. Agrees-cast (h c) (omega arith) (omega arith) (omega arith)) d)
      (omega arith) (omega arith) (omega arith)

run-Accounted :
    (ss : List (ℕ × Input)) (m : Manager) (ps : List Place)
    → Accounted m ps
    → let (m', ps') = run m ps ss in Accounted m' ps'
unfolding run
run-Accounted [] m ps h = h
run-Accounted (s ∷ ss) m ps h =
    run-Accounted ss (advance_at s.0 s.1 m ps).0 (advance_at s.0 s.1 m ps).1
      (advance_at-Accounted s.0 s.1 m ps h)

run-IsBounded :
    (b : Manager) (ss : List (ℕ × Input)) (m : Manager) (ps : List Place) (d : Class)
    → IsBounded b m d
    → IsBounded b (run m ps ss).0 d
unfolding run
run-IsBounded b [] m ps d h = h
run-IsBounded b (s ∷ ss) m ps d h =
    run-IsBounded b ss (advance_at s.0 s.1 m ps).0 (advance_at s.0 s.1 m ps).1 d
      (advance_at-IsBounded b s.0 s.1 m ps d h)

-- Requests of the given classes that all call `Acquire`.
abbrev pub arrivals : List Class → List Place
arrivals cs = map Place.entering cs

arrivals-slots : (cs : List Class) (d : Class) → total (slots d) (arrivals cs) ≡ 0
unfolding total
arrivals-slots [] d = refl
arrivals-slots (c ∷ cs) d = let rest = arrivals-slots cs d in omega arith

arrivals-active : (cs : List Class) → total active (arrivals cs) ≡ 0
unfolding total
arrivals-active [] = refl
arrivals-active (c ∷ cs) = let rest = arrivals-active cs in omega arith

arrivals-waits : (cs : List Class) (d : Class) → total (waits d) (arrivals cs) ≡ 0
unfolding total
arrivals-waits [] d = refl
arrivals-waits (c ∷ cs) d = let rest = arrivals-waits cs d in omega arith

-- The request is done with admission.
abbrev pub IsOver : Place → Type 0
IsOver (Place.refused rs) = Unit
IsOver Place.finished = Unit
IsOver _ = ⊥

over_weight :
    (p : Place) (d : Class) → IsOver p → (slots d p ≡ 0) × (active p ≡ 0) × (waits d p ≡ 0)
over_weight (Place.refused rs) d o = (refl, refl, refl)
over_weight Place.finished d o = (refl, refl, refl)
over_weight _ d o = absurd o

over_total :
    (ps : List Place) (d : Class)
    → All IsOver ps
    → (total (slots d) ps ≡ 0) × (total active ps ≡ 0) × (total (waits d) ps ≡ 0)
unfolding total
over_total [] d o = (refl, refl, refl)
over_total (p ∷ ps) d o =
    let here = over_weight p d o.0 in
    let rest = over_total ps d o.1 in (omega arith, omega arith, omega arith)

module _ (c n b : Config) (global_max : ℤ) (cs : List Class) where
  new-Accounted : Accounted (new_manager c n b global_max) (arrivals cs)
  unfolding new_manager
  new-Accounted d =
      Agrees-cast (record { sem_is = refl; active_is = refl; waiters_is = refl })
        (sym (arrivals-slots cs d)) (sym (arrivals-active cs)) (sym (arrivals-waits cs d))

  new-IsBounded :
      (d : Class) → IsBounded (new_manager c n b global_max) (new_manager c n b global_max) d
  unfolding new_manager
  new-IsBounded d = record { cfg = refl; within = ground arith }

  -- Whatever classes of requests arrive and however their steps interleave, with whatever contexts:
  -- in each class the requests that have a slot are never more than its concurrency, and the
  -- channel, the active and the waiting counters hold exactly the requests that are in those places.
  pub bulkheads_hold :
      (ss : List (ℕ × Input)) (d : Class)
      → let (m, ps) = run (new_manager c n b global_max) (arrivals cs) ss in
        Agrees m d (total (slots d) ps) (total active ps) (total (waits d) ps)
        × (pos (total (slots d) ps) ≤ℤ ((new_manager c n b global_max).classes d).cfg.concurrency)
  bulkheads_hold ss d =
      let start = new_manager c n b global_max in
      let agrees = run-Accounted ss start (arrivals cs) new-Accounted d in
      let bounded = run-IsBounded start ss start (arrivals cs) d (new-IsBounded d) in
      (agrees, rw (← agrees.sem_is, ← bounded.cfg) bounded.within)

  -- Once every request has been refused or has been released, no slot is taken, nobody waits and
  -- nobody is active: on no path a slot or a count is lost.
  pub nothing_leaks :
      (ss : List (ℕ × Input)) (d : Class)
      → All IsOver (run (new_manager c n b global_max) (arrivals cs) ss).1
      → Agrees (run (new_manager c n b global_max) (arrivals cs) ss).0 d 0 0 0
  nothing_leaks ss d over =
      let (s, a, w) = over_total (run (new_manager c n b global_max) (arrivals cs) ss).1 d over in
      Agrees-cast (run-Accounted ss (new_manager c n b global_max) (arrivals cs) new-Accounted d) s
        a w
