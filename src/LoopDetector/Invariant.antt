-- ===== src/LoopDetector/Invariant.antt =====
-- What holds of a detector's entries between two calls.
use signalmesh.Base.{
  ◌<◌, ◌≡◌, refl, Option, none, some, List, [], ◌∷◌, String, arith, length, length-append,
}
use Prim.Native.Nat.{min}
use signalmesh.Base.Int.{ℤ, pos, leb_ℤ, ◌<ℤ◌}
use signalmesh.Base.Clock.{Time, Duration}
use signalmesh.Base.Maps.{lookup, lookup-insert, lookup-delete, lookup-nil}
use signalmesh.LoopDetector.{
  Entry, Detector, Call, fails, succeeds, new, bump, entry_at, step, run, record_failure,
}

pub record IsValidEntry (threshold : ℤ) (e : Entry) : Type 0 where
  pub seen : 0 < e.count
  pub told : e.notified ≡ leb_ℤ threshold (pos e.count)
  pub kept : length e.reasons ≡ min e.count 5

pub record IsValid (d : Detector) : Type 0 where
  pub threshold_pos : pos 0 <ℤ d.threshold
  pub window_pos : pos 0 <ℤ d.window
  pub entries_valid :
      (fp : String) (e : Entry) → lookup fp d.entries ≡ some e → IsValidEntry d.threshold e

-- An entry between two calls, or one just made.
record IsReady (threshold : ℤ) (e : Entry) : Type 0 where
  told : e.notified ≡ leb_ℤ threshold (pos e.count)
  kept : length e.reasons ≡ min e.count 5

bump-IsValidEntry :
    (d : Detector) (e : Entry) (reason : String) (now : Time)
    → IsReady d.threshold e
    → IsValidEntry d.threshold (bump d e reason now).0
unfolding bump
bump-IsValidEntry d e reason now v = ground (arith, length-append e.reasons (reason ∷ []))

entry_at-IsReady :
    (d : Detector) (o : Option Entry) (now : Time)
    → pos 0 <ℤ d.threshold
    → ((e : Entry) → o ≡ some e → IsValidEntry d.threshold e)
    → IsReady d.threshold (entry_at d o now)
unfolding entry_at
entry_at-IsReady d none now t v = ground arith
entry_at-IsReady d (some e) now t v = ground (arith, v e refl)

record_failure-IsValid :
    (d : Detector) (fp reason : String) (now : Time)
    → IsValid d
    → IsValid (record_failure d fp reason now).0
unfolding record_failure
record_failure-IsValid d fp reason now v = record {
  threshold_pos = v.threshold_pos;
  window_pos = v.window_pos;
  entries_valid = λ j e h. ground (
    arith,
    lookup-insert fp j (bump d (entry_at d (lookup fp d.entries) now) reason now).0 d.entries,
    v.entries_valid j e,
    bump-IsValidEntry d (entry_at d (lookup fp d.entries) now) reason now
        (entry_at-IsReady d (lookup fp d.entries) now v.threshold_pos (v.entries_valid fp)),
  );
}

pub step-IsValid : (d : Detector) (c : Call) → IsValid d → IsValid (step d c)
unfolding step
step-IsValid d (fails fp reason now) v = record_failure-IsValid d fp reason now v
step-IsValid d (succeeds fp) v = record {
  threshold_pos = v.threshold_pos;
  window_pos = v.window_pos;
  entries_valid = λ j e h. ground (arith, lookup-delete fp j d.entries, v.entries_valid j e);
}

pub new-IsValid : (threshold : ℤ) (window : Duration) → IsValid (new threshold window)
unfolding new
new-IsValid threshold window = record {
  threshold_pos = ground arith;
  window_pos = ground arith;
  entries_valid = λ fp e h. ground (arith, lookup-nil {V = Entry} fp);
}

run-IsValid : (d : Detector) (cs : List Call) → IsValid d → IsValid (run d cs)
unfolding run
run-IsValid d [] v = v
run-IsValid d (c ∷ cs) v = run-IsValid (step d c) cs (step-IsValid d c v)

-- After any calls on a new detector its threshold and window are positive, and each entry has a
-- positive count, is marked notified exactly when its count has reached the threshold, and keeps
-- one reason for each failure up to five.
any_run-IsValid :
    (threshold : ℤ) (window : Duration) (cs : List Call) → IsValid (run (new threshold window) cs)
any_run-IsValid threshold window cs =
    run-IsValid (new threshold window) cs (new-IsValid threshold window)
