-- ===== src/Breaker/Streak.antt =====
-- A breaker that only sees outcomes opens exactly on a streak of failures.
use signalmesh.Base.{
  ℕ, suc, ◌+◌, ◌<◌, ◌≡◌, ◌≢◌, refl, sym, ap, ◌↔◌, ◌⊎◌, inl, inr, false, List, [], ◌∷◌, ◌++◌, map,
  arith, length, All, leb, leb→le, ◌∙◌, length-append, Bool-cases,
}
use mathlib.Core.List.{append_assoc}
use signalmesh.Breaker.Transitions.{step-cfg, IsEarly, open_blocks}
use signalmesh.Base.Int.{pos, leb_ℤ, ◌<ℤ◌, ◌≤ℤ◌, leb_ℤ→le, leb_ℤ→lt}
use signalmesh.Base.Clock.{Time}
use signalmesh.Breaker.{State, Config, Breaker, Call, step, run, new}
use signalmesh.Breaker.Invariant.{IsValid, new-IsValid, step-IsValid}

abbrev pub IsOutcome : Call → Type 0
IsOutcome (Call.succeeds at) = Unit
IsOutcome (Call.fails at) = Unit
IsOutcome _ = ⊥

IsOutcome-IsEarly : (b : Breaker) (c : Call) → IsOutcome c → IsEarly b c
IsOutcome-IsEarly b (Call.succeeds at) e = tt
IsOutcome-IsEarly b (Call.fails at) e = tt
IsOutcome-IsEarly b (Call.allows now at) e = absurd e
IsOutcome-IsEarly b (Call.resets at) e = e
IsOutcome-IsEarly b (Call.trips at) e = tt

-- Some n failures stand in a row among the calls.
abbrev pub HasStreak : ℕ → List Call → Type 0
HasStreak n cs =
    (xs : List Call) × (fs : List Time) × (ys : List Call) × (cs ≡ xs ++ (map Call.fails fs ++ ys))
    × (length fs ≡ n)

outcomes-IsEarly : (b : Breaker) (cs : List Call) → All IsOutcome cs → All (IsEarly b) cs
outcomes-IsEarly b [] e = tt
outcomes-IsEarly b (c ∷ cs) e = (IsOutcome-IsEarly b c e.0, outcomes-IsEarly b cs e.1)

open_stays :
    (b : Breaker) (cs : List Call)
    → b.state ≡ State.open_
    → All IsOutcome cs
    → (run b cs).state ≡ State.open_
open_stays b cs o e = rw (open_blocks b cs o (outcomes-IsEarly b cs e)).0 o

-- Neither half open nor past its threshold.
abbrev IsSettled : Breaker → Type 0
IsSettled b = (b.state ≡ State.closed) ⊎ (b.state ≡ State.open_)

outcome-IsSettled : (b : Breaker) (c : Call) → IsOutcome c → IsSettled b → IsSettled (step b c)
unfolding step
outcome-IsSettled b (Call.succeeds at) o s = ground arith
outcome-IsSettled b (Call.fails at) o s = ground arith
outcome-IsSettled b (Call.allows now at) o s = absurd o
outcome-IsSettled b (Call.resets at) o s = absurd o
outcome-IsSettled b (Call.trips at) o s = absurd o

fail_opens :
    (b : Breaker) (at : Time)
    → b.state ≡ State.closed
    → b.cfg.failure_threshold ≤ℤ pos (suc b.failures)
    → (step b (Call.fails at)).state ≡ State.open_
unfolding step
fail_opens b at o h = ground arith

fail_counts :
    (b : Breaker) (at : Time)
    → b.state ≡ State.closed
    → pos (suc b.failures) <ℤ b.cfg.failure_threshold
    → step b (Call.fails at) ≡ record b { failures = b.failures + 1 }
unfolding step
fail_counts b at o h = ground arith

success_clears :
    (b : Breaker) (at : Time)
    → b.state ≡ State.closed
    → step b (Call.succeeds at) ≡ record b { failures = 0 }
unfolding step
success_clears b at o = ground arith

IsOutcome-fails :
    (fs : List Time) (ys : List Call) → All IsOutcome ys → All IsOutcome (map Call.fails fs ++ ys)
IsOutcome-fails [] ys e = e
IsOutcome-fails (f ∷ fs) ys e = (tt, IsOutcome-fails fs ys e)

streak_opens_from :
    (fs : List Time) (b : Breaker) (ys : List Call)
    → IsValid b
    → IsSettled b
    → b.cfg.failure_threshold ≤ℤ pos (b.failures + length fs)
    → All IsOutcome ys
    → (run b (map Call.fails fs ++ ys)).state ≡ State.open_
unfolding run
streak_opens_from fs b ys v (inr o) t e =
    open_stays b (map Call.fails fs ++ ys) o (IsOutcome-fails fs ys e)
streak_opens_from [] b ys v (inl s) t e = absurd (omega (arith, v.below_threshold))
streak_opens_from (f ∷ fs) b ys v (inl s) t e =
    elim (Bool-cases (leb_ℤ b.cfg.failure_threshold (pos (suc b.failures)))) [
      | inl full ↦
          open_stays (step b (Call.fails f)) (map Call.fails fs ++ ys)
            (fail_opens b f s (leb_ℤ→le b.cfg.failure_threshold (pos (suc b.failures)) full))
            (IsOutcome-fails fs ys e)
      | inr more ↦
          streak_opens_from fs (step b (Call.fails f)) ys (step-IsValid b (Call.fails f) v)
            (outcome-IsSettled b (Call.fails f) tt (inl s))
            (rw (fail_counts b f s (leb_ℤ→lt b.cfg.failure_threshold (pos (suc b.failures)) more))
              (omega arith))
            e
    ]

IsOutcome-tail :
    (fs : List Time) (ys : List Call) → All IsOutcome (map Call.fails fs ++ ys) → All IsOutcome ys
IsOutcome-tail [] ys e = e
IsOutcome-tail (f ∷ fs) ys e = IsOutcome-tail fs ys e.1

opens_of_streak :
    (xs : List Call) (b : Breaker) (fs : List Time) (ys : List Call)
    → IsValid b
    → IsSettled b
    → b.cfg.failure_threshold ≤ℤ pos (length fs)
    → All IsOutcome (xs ++ (map Call.fails fs ++ ys))
    → (run b (xs ++ (map Call.fails fs ++ ys))).state ≡ State.open_
unfolding run
opens_of_streak [] b fs ys v s t e =
    streak_opens_from fs b ys v s (omega arith) (IsOutcome-tail fs ys e)
opens_of_streak (x ∷ xs) b fs ys v s t e =
    opens_of_streak xs (step b x) fs ys (step-IsValid b x v) (outcome-IsSettled b x e.0 s)
      (rw (step-cfg b x) t) e.1

fails_snoc :
    (gs : List Time) (f : Time) (cs : List Call)
    → map Call.fails (gs ++ f ∷ []) ++ cs ≡ map Call.fails gs ++ (Call.fails f ∷ cs)
fails_snoc [] f cs = refl
fails_snoc (g ∷ gs) f cs = ap (λ t. Call.fails g ∷ t) (fails_snoc gs f cs)

closed≢open : State.closed ≢ State.open_
closed≢open h = cc

step-cfg_threshold :
    (b : Breaker) (c : Call) {n : ℕ}
    → b.cfg.failure_threshold ≡ pos n
    → (step b c).cfg.failure_threshold ≡ pos n
step-cfg_threshold b c h = rw (step-cfg b c) h

new_closed :
    (cfg : Config) (now : Time)
    → ((new cfg now).state ≡ State.closed) × ((new cfg now).failures ≡ 0)
unfolding new
new_closed cfg now = (refl, refl)

new_threshold :
    (cfg : Config) (n : ℕ) (now : Time)
    → cfg.failure_threshold ≡ pos (suc n)
    → (new cfg now).cfg.failure_threshold ≡ pos (suc n)
unfolding new
new_threshold cfg n now h = ground arith

HasStreak-shift :
    (n : ℕ) (gs : List Time) (f : Time) (cs : List Call)
    → HasStreak n (map Call.fails (gs ++ f ∷ []) ++ cs)
    → HasStreak n (map Call.fails gs ++ (Call.fails f ∷ cs))
HasStreak-shift n gs f cs h = rw (fails_snoc gs f cs) at h

HasStreak-prefix : (n : ℕ) (ps cs : List Call) → HasStreak n cs → HasStreak n (ps ++ cs)
HasStreak-prefix n ps cs (xs, fs, ys, e, l) =
    (ps ++ xs, fs, ys, rw (append_assoc ps xs (map Call.fails fs ++ ys)) (ap (λ t. ps ++ t) e), l)

streak_of_open :
    (n : ℕ) (cs : List Call) (b : Breaker) (gs : List Time)
    → b.cfg.failure_threshold ≡ pos n
    → b.state ≡ State.closed
    → b.failures ≡ length gs
    → b.failures < n
    → All IsOutcome cs
    → (run b cs).state ≡ State.open_
    → HasStreak n (map Call.fails gs ++ cs)
unfolding run
streak_of_open n [] b gs c s l v e o = absurd (closed≢open (sym s ∙ o))
streak_of_open n (Call.succeeds at ∷ cs) b gs c s l v e o =
    HasStreak-prefix n (map Call.fails gs) (Call.succeeds at ∷ cs) (
      HasStreak-prefix n (Call.succeeds at ∷ []) cs (
        streak_of_open n cs (step b (Call.succeeds at)) []
          (step-cfg_threshold b (Call.succeeds at) c) (rw (success_clears b at s) s)
          (rw (success_clears b at s)) (rw (success_clears b at s) (omega arith)) e.1 o))
streak_of_open n (Call.fails at ∷ cs) b gs c s l v e o =
    elim (Bool-cases (leb n (suc b.failures))) [
      | inl full ↦ (
        [],
        gs ++ at ∷ [],
        cs,
        sym (fails_snoc gs at cs),
        rw length-append (omega (arith, leb→le _ _ full)),
      )
      | inr more ↦ HasStreak-shift n gs at cs (
          streak_of_open n cs (step b (Call.fails at)) (gs ++ at ∷ [])
            (step-cfg_threshold b (Call.fails at) c) (rw (count more) s)
            (rw (count more, length-append) (omega arith)) (rw (count more) (ground arith)) e.1 o)
    ]
  where
    count :
        leb n (suc b.failures) ≡ false
        → step b (Call.fails at) ≡ record b { failures = b.failures + 1 }
    count more = fail_counts b at s (rw c (ground arith))
streak_of_open n (Call.allows now at ∷ cs) b gs c s l v e o = absurd e.0
streak_of_open n (Call.resets at ∷ cs) b gs c s l v e o = absurd e.0
streak_of_open n (Call.trips at ∷ cs) b gs c s l v e o = absurd e.0

-- A fresh breaker that only sees outcomes, in any number and at any times, ends OPEN exactly when
-- as many failures as its threshold n stand in a row somewhere among them.
pub opens_iff_streak :
    (cfg : Config) (n : ℕ) (now : Time) (cs : List Call)
    → cfg.failure_threshold ≡ pos (suc n)
    → All IsOutcome cs
    → ((run (new cfg now) cs).state ≡ State.open_) ↔ HasStreak (suc n) cs
opens_iff_streak cfg n now cs c e = (to_streak, of_streak)
  where
    fresh : (new cfg now).cfg.failure_threshold ≡ pos (suc n)
    fresh = new_threshold cfg n now c

    to_streak : (run (new cfg now) cs).state ≡ State.open_ → HasStreak (suc n) cs
    to_streak =
        streak_of_open (suc n) cs (new cfg now) [] fresh (new_closed cfg now).0
          (new_closed cfg now).1 (rw (new_closed cfg now).1 (omega arith)) e

    of_streak : HasStreak (suc n) cs → (run (new cfg now) cs).state ≡ State.open_
    of_streak (xs, fs, ys, s, l) = rw s (
        opens_of_streak xs (new cfg now) fs ys (new-IsValid cfg now) (inl (new_closed cfg now).0)
          (rw (fresh, l) (omega arith)) (rw s at e))
