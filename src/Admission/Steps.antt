-- ===== src/Admission/Steps.antt =====
-- What one step of a request does to the counters, for every place where it may stand.
use signalmesh.Base.{
  ℕ, zero, suc, ◌+◌, ◌≤◌, ◌≡◌, refl, ap, ◌∙◌, Bool, true, false, List, [], ◌∷◌, arith,
}
use signalmesh.Base.Int.{pos, ◌≤ℤ◌}
use signalmesh.Admission.{Class, Manager, Input, Place, same, advance, advance_at}

abbrev one : Bool → ℕ
one true = 1
one false = 0

-- Whether a request has a slot of a class.
abbrev pub slots : Class → Place → ℕ
slots d (Place.slotted w c) = one (same c d)
slots d (Place.admitted w c) = one (same c d)
slots d (Place.leaving c) = one (same c d)
slots d (Place.holding c) = one (same c d)
slots d _ = 0

-- Whether a request is counted as active.
abbrev pub active : Place → ℕ
active (Place.leaving c) = 1
active (Place.holding c) = 1
active Place.releasing = 1
active _ = 0

-- Whether a request is counted as a waiter of a class.
abbrev pub waits : Class → Place → ℕ
waits d (Place.waiting c) = one (same c d)
waits d (Place.slotted true c) = one (same c d)
waits d (Place.admitted true c) = one (same c d)
waits d (Place.leaving c) = one (same c d)
waits d (Place.giving_up c rs) = one (same c d)
waits d _ = 0

unfoldable pub total : (Place → ℕ) → List Place → ℕ
total f [] = 0
total f (p ∷ ps) = f p + total f ps

-- The counters agree with the requests, where `s`, `a` and `w` are the parts of requests not seen.
pub record Agrees (m : Manager) (d : Class) (s a w : ℕ) : Type 0 where
  pub sem_is : (m.classes d).sem ≡ s
  pub active_is : m.total_active ≡ pos a
  pub waiters_is : (m.classes d).waiters ≡ pos w

same_eq : (c d : Class) → same c d ≡ true → c ≡ d
same_eq Class.critical Class.critical h = refl
same_eq Class.normal Class.normal h = refl
same_eq Class.background Class.background h = refl
same_eq Class.critical Class.normal h = cc
same_eq Class.critical Class.background h = cc
same_eq Class.normal Class.critical h = cc
same_eq Class.normal Class.background h = cc
same_eq Class.background Class.critical h = cc
same_eq Class.background Class.normal h = cc

advance-Agrees :
    (i : Input) (m : Manager) (p : Place) (d : Class) (s a w : ℕ)
    → ((c : Class) → p ≡ Place.holding c → 1 ≤ (m.classes c).sem)
    → Agrees m d (s + slots d p) (a + active p) (w + waits d p)
    → let (m', p') = advance i m p in Agrees m' d (s + slots d p') (a + active p') (w + waits d p')
unfolding advance
advance-Agrees i m (Place.entering c) d s a w full h = ground arith
advance-Agrees i m (Place.checking c) d s a w full h = ground arith
advance-Agrees i m (Place.trying c) d s a w full h = ground (arith, same_eq c d)
advance-Agrees i m (Place.queueing c) d s a w full h = ground arith
advance-Agrees i m (Place.counting c) d s a w full h = ground arith
advance-Agrees i m (Place.joining c) d s a w full h = ground (arith, same_eq c d)
advance-Agrees i m (Place.waiting c) d s a w full h = ground (arith, same_eq c d)
advance-Agrees i m (Place.dropping c rs) d s a w full h = ground (arith, same_eq c d)
advance-Agrees i m (Place.dropping_total rs) d s a w full h = ground arith
advance-Agrees i m (Place.slotted waited c) d s a w full h = ground (arith, same_eq c d)
advance-Agrees i m (Place.admitted waited c) d s a w full h = ground arith
advance-Agrees i m (Place.leaving c) d s a w full h = ground (arith, same_eq c d)
advance-Agrees i m (Place.giving_up c rs) d s a w full h = ground (arith, same_eq c d)
advance-Agrees i m (Place.holding c) d s a w full h = ground (arith, same_eq c d, full c refl)
advance-Agrees i m Place.releasing d s a w full h = ground arith
advance-Agrees i m (Place.refused rs) d s a w full h = h
advance-Agrees i m Place.finished d s a w full h = h

pub Agrees-cast :
    {m : Manager} {d : Class} {s s' a a' w w' : ℕ}
    → Agrees m d s a w
    → s ≡ s'
    → a ≡ a'
    → w ≡ w'
    → Agrees m d s' a' w'
Agrees-cast h p q r = record {
  sem_is = h.sem_is ∙ p;
  active_is = h.active_is ∙ ap pos q;
  waiters_is = h.waiters_is ∙ ap pos r;
}

same_refl : (c : Class) → same c c ≡ true
same_refl Class.critical = refl
same_refl Class.normal = refl
same_refl Class.background = refl

-- The same for all classes at once.
abbrev pub AllAgree : Manager → (Class → ℕ) → ℕ → (Class → ℕ) → Type 0
AllAgree m s a w = (d : Class) → Agrees m d (s d) a (w d)

holding_full :
    (m : Manager) (p : Place) (s w : Class → ℕ) (a : ℕ)
    → AllAgree m (λ d. s d + slots d p) (a + active p) (λ d. w d + waits d p)
    → (c : Class) → p ≡ Place.holding c
    → 1 ≤ (m.classes c).sem
holding_full m p s w a h c e = let f = (h c).sem_is in rw f (rw e (rw (same_refl c) (omega arith)))

-- The places of the requests before the one that steps count with the unseen part.
pub advance_at-AllAgree :
    (n : ℕ) (i : Input) (m : Manager) (ps : List Place) (s w : Class → ℕ) (a : ℕ)
    → AllAgree m
        (λ d. s d + total (slots d) ps)
        (a + total active ps)
        (λ d. w d + total (waits d) ps)
    → let (m', ps') = advance_at n i m ps in
      AllAgree m'
        (λ d. s d + total (slots d) ps')
        (a + total active ps')
        (λ d. w d + total (waits d) ps')
unfolding advance_at total
advance_at-AllAgree n i m [] s w a h = h
advance_at-AllAgree zero i m (p ∷ ps) s w a h = λ d.
    let swapped : AllAgree m (λ c. (s c + total (slots c) ps) + slots c p)
        ((a + total active ps) + active p) (λ c. (w c + total (waits c) ps) + waits c p) =
      λ c. Agrees-cast (h c) (omega arith) (omega arith) (omega arith) in
    Agrees-cast
      (advance-Agrees i m p d (s d + total (slots d) ps) (a + total active ps)
        (w d + total (waits d) ps) (holding_full m p _ _ _ swapped) (swapped d))
      (omega arith) (omega arith) (omega arith)
advance_at-AllAgree (suc n) i m (p ∷ ps) s w a h = λ d.
    let seen : AllAgree m (λ c. (s c + slots c p) + total (slots c) ps)
        ((a + active p) + total active ps) (λ c. (w c + waits c p) + total (waits c) ps) =
      λ c. Agrees-cast (h c) (omega arith) (omega arith) (omega arith) in
    Agrees-cast
      (advance_at-AllAgree n i m ps (λ c. s c + slots c p) (λ c. w c + waits c p) (a + active p)
        seen d)
      (omega arith) (omega arith) (omega arith)

-- No step changes the configuration, and none takes a slot beyond the concurrency of its class.
pub record IsBounded (before m : Manager) (d : Class) : Type 0 where
  pub cfg : (m.classes d).cfg ≡ (before.classes d).cfg
  pub within : pos (m.classes d).sem ≤ℤ (m.classes d).cfg.concurrency

advance-IsBounded :
    (b : Manager) (i : Input) (m : Manager) (p : Place) (d : Class)
    → IsBounded b m d
    → IsBounded b (advance i m p).0 d
unfolding advance
advance-IsBounded b i m (Place.entering c) d h = ground arith
advance-IsBounded b i m (Place.checking c) d h = ground arith
advance-IsBounded b i m (Place.trying c) d h = ground (arith, same_eq c d)
advance-IsBounded b i m (Place.queueing c) d h = ground arith
advance-IsBounded b i m (Place.counting c) d h = ground arith
advance-IsBounded b i m (Place.joining c) d h = ground (arith, same_eq c d)
advance-IsBounded b i m (Place.waiting c) d h = ground (arith, same_eq c d)
advance-IsBounded b i m (Place.dropping c rs) d h = ground (arith, same_eq c d)
advance-IsBounded b i m (Place.dropping_total rs) d h = ground arith
advance-IsBounded b i m (Place.slotted waited c) d h = ground (arith, same_eq c d)
advance-IsBounded b i m (Place.admitted waited c) d h = ground arith
advance-IsBounded b i m (Place.leaving c) d h = ground (arith, same_eq c d)
advance-IsBounded b i m (Place.giving_up c rs) d h = ground (arith, same_eq c d)
advance-IsBounded b i m (Place.holding c) d h = ground (arith, same_eq c d)
advance-IsBounded b i m Place.releasing d h = ground arith
advance-IsBounded b i m (Place.refused rs) d h = h
advance-IsBounded b i m Place.finished d h = h

pub advance_at-IsBounded :
    (b : Manager) (n : ℕ) (i : Input) (m : Manager) (ps : List Place) (d : Class)
    → IsBounded b m d
    → IsBounded b (advance_at n i m ps).0 d
unfolding advance_at
advance_at-IsBounded b n i m [] d h = h
advance_at-IsBounded b zero i m (p ∷ ps) d h = advance-IsBounded b i m p d h
advance_at-IsBounded b (suc n) i m (p ∷ ps) d h = advance_at-IsBounded b n i m ps d h
