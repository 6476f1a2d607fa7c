-- ===== src/LoopDetector/Window.antt =====
-- Failures of one pattern whose instants all lie in one window.
use signalmesh.Base.{ℕ, suc, ◌+◌, ◌≤◌, ◌≡◌, ◌∙◌, ◌⊎◌, inl, inr, none, String, arith, leb}
use signalmesh.Base.Int.{pos, ◌≤ℤ◌}
use signalmesh.Base.Clock.{Time, since}
use signalmesh.Base.Maps.{lookup}
use signalmesh.LoopDetector.{Detector, record_failure, is_looping}
use signalmesh.LoopDetector.Counting.{
  Counted, first_failure, later_failure, looping-Counted, looping-none,
}

-- An instant of a window of w nanoseconds.
abbrev pub IsIn : ℕ → ℕ → Time → Type 0
IsIn from w t = (from ≤ t) × (t ≤ from + w)

within : (from w now last : ℕ) → IsIn from w now → IsIn from w last → since now last ≤ℤ pos w
within from w now last a b = ground arith

-- The detector has counted k failures of a pattern in the window.
module _ (fp : String) (n from w : ℕ) where
  pub record Latest (d : Detector) (k : ℕ) : Type 0 where
    pub last : Time
    pub last_in : IsIn from w last
    pub counted : Counted d fp (suc n) k last

  pub record IsSeen (d : Detector) (k : ℕ) : Type 0 where
    pub threshold : d.threshold ≡ pos (suc n)
    pub window : d.window ≡ pos w
    pub found : ((k ≡ 0) × (lookup fp d.entries ≡ none)) ⊎ Latest d k

  pub record_failure-IsSeen :
      (d : Detector) (k : ℕ) (reason : String) (now : Time)
      → IsSeen d k
      → IsIn from w now
      → IsSeen (record_failure d fp reason now).0 (suc k)
  unfolding record_failure
  record_failure-IsSeen d k reason now s i = record {
    threshold = s.threshold;
    window = s.window;
    found = elim s.found [
      | inl (e, absent) ↦ inr (record {
        last = now;
        last_in = i;
        counted = rw e (first_failure d fp reason now n s.threshold absent).0;
      })
      | inr l ↦ inr (record {
        last = now;
        last_in = i;
        counted =
            (later_failure d fp reason now (suc n) k l.counted
              (rw s.window (within from w now l.last i l.last_in))).0;
      })
    ];
  }

  -- The pattern is looping exactly when the threshold is reached.
  pub seen_looping :
      (d : Detector) (k : ℕ) (now : Time)
      → IsSeen d k
      → IsIn from w now
      → is_looping d fp now ≡ leb (suc n) k
  seen_looping d k now s i = elim s.found [
    | inl (e, absent) ↦ looping-none d fp now absent ∙ ground (arith, e)
    | inr l ↦
        looping-Counted d fp (suc n) k l.last now l.counted
          (rw s.window (within from w now l.last i l.last_in))
  ]
