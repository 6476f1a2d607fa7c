-- ===== src/Admission/Isolation.antt =====
-- What requests of one class leave alone.
use signalmesh.Base.{ℕ, zero, suc, ◌≡◌, refl, ◌∙◌, Bool, false, List, [], ◌∷◌, All, arith}
use signalmesh.Admission.{Class, Manager, Input, Place, same, advance, advance_at, run}

-- Whether a request may still touch the state of a class.
abbrev pub concerns : Class → Place → Bool
concerns d (Place.entering c) = same c d
concerns d (Place.checking c) = same c d
concerns d (Place.trying c) = same c d
concerns d (Place.queueing c) = same c d
concerns d (Place.counting c) = same c d
concerns d (Place.joining c) = same c d
concerns d (Place.waiting c) = same c d
concerns d (Place.dropping c rs) = same c d
concerns d (Place.slotted waited c) = same c d
concerns d (Place.admitted waited c) = same c d
concerns d (Place.leaving c) = same c d
concerns d (Place.giving_up c rs) = same c d
concerns d (Place.holding c) = same c d
concerns d _ = false

abbrev Apart : Class → Manager → Manager × Place → Type 0
Apart d m (m', p') = (m'.classes d ≡ m.classes d) × (concerns d p' ≡ false)

advance-Apart :
    (i : Input) (m : Manager) (p : Place) (d : Class)
    → concerns d p ≡ false
    → Apart d m (advance i m p)
unfolding advance
advance-Apart i m (Place.dropping_total rs) d h = (refl, refl)
advance-Apart i m Place.releasing d h = (refl, refl)
advance-Apart i m (Place.refused rs) d h = (refl, refl)
advance-Apart i m Place.finished d h = (refl, refl)
advance-Apart i m _ d h = ground arith

abbrev AllApart : Class → Manager → Manager × List Place → Type 0
AllApart d m (m', ps') = (m'.classes d ≡ m.classes d) × All (λ p. concerns d p ≡ false) ps'

advance_at-AllApart :
    (n : ℕ) (i : Input) (m : Manager) (ps : List Place) (d : Class)
    → All (λ p. concerns d p ≡ false) ps
    → AllApart d m (advance_at n i m ps)
unfolding advance_at
advance_at-AllApart n i m [] d h = (refl, tt)
advance_at-AllApart zero i m (p ∷ ps) d h =
    let (same_state, apart) = advance-Apart i m p d h.0 in (same_state, (apart, h.1))
advance_at-AllApart (suc n) i m (p ∷ ps) d h =
    let (same_state, apart) = advance_at-AllApart n i m ps d h.1 in (same_state, (h.0, apart))

-- Bulkheads are isolated: however many requests of other classes arrive and however they
-- interleave, the slots, the queue and the counters of a class stay as they are.
pub isolated :
    (ss : List (ℕ × Input)) (m : Manager) (ps : List Place) (d : Class)
    → All (λ p. concerns d p ≡ false) ps
    → (run m ps ss).0.classes d ≡ m.classes d
unfolding run
isolated [] m ps d h = refl
isolated (s ∷ ss) m ps d h =
    let (same_state, apart) = advance_at-AllApart s.0 s.1 m ps d h in
    isolated ss (advance_at s.0 s.1 m ps).0 (advance_at s.0 s.1 m ps).1 d apart ∙ same_state
