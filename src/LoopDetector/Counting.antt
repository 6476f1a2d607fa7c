-- ===== src/LoopDetector/Counting.antt =====
-- What a series of failures of one request pattern leads to.
use signalmesh.Base.{
  ℕ, suc, ◌+◌, ◌≡◌, ◌≢◌, refl, ap, ◌∙◌, Bool, false, none, some, List, [], ◌∷◌, String, arith,
  length, ◌==◌, leb, eq_iff,
}
use native.Mathlib.Nat.{add-zero}
use signalmesh.Base.Int.{pos, ◌≤ℤ◌}
use signalmesh.Base.Clock.{Time, Duration, since}
use signalmesh.Base.Maps.{lookup, lookup-insert, lookup-delete, str_eq_refl}
use signalmesh.LoopDetector.{
  bump, entry_at, Entry, Detector, record_failure, record_success, is_looping,
}

-- A failure: its reason and its time.
abbrev Failure : Type 0
Failure = String × Time

unfoldable fail_all : Detector → String → List Failure → Detector
fail_all d fp [] = d
fail_all d fp (f ∷ fs) = fail_all (record_failure d fp f.0 f.1).0 fp fs

-- What `RecordFailure` answers to each.
unfoldable answers : Detector → String → List Failure → List (Bool × ℕ)
answers d fp [] = []
answers d fp (f ∷ fs) =
    let (d', detected, count) = record_failure d fp f.0 f.1 in (detected, count) ∷ answers d' fp fs

-- No pause between two failures is longer than the window.
abbrev IsClose : Duration → Time → List Failure → Type 0
IsClose window last [] = Unit
IsClose window last (f ∷ fs) = (since f.1 last ≤ℤ window) × IsClose window f.1 fs

abbrev last_time : Time → List Failure → Time
last_time t [] = t
last_time t (f ∷ fs) = last_time f.1 fs

-- The i-th, (i + 1)-th, ... failure: only the n-th is a detection.
abbrev only_at : ℕ → ℕ → List Failure → List (Bool × ℕ)
only_at n i [] = []
only_at n i (f ∷ fs) = (i == n, i) ∷ only_at n (suc i) fs

-- `i` failures have been counted, the last at `last`.
pub record Counted (d : Detector) (fp : String) (n i : ℕ) (last : Time) : Type 0 where
  pub threshold_is : d.threshold ≡ pos n
  pub entry : Entry
  pub stored : lookup fp d.entries ≡ some entry
  pub counts : entry.count ≡ i
  pub told : entry.notified ≡ leb n i
  pub at : entry.last_seen ≡ last

-- The entry that a failure leaves.
abbrev next_entry : Detector → String → String → Time → Entry
next_entry d fp reason now = (bump d (entry_at d (lookup fp d.entries) now) reason now).0

stored-record_failure :
    (d : Detector) (fp reason : String) (now : Time)
    → lookup fp (record_failure d fp reason now).0.entries ≡ some (next_entry d fp reason now)
unfolding record_failure
stored-record_failure d fp reason now =
    rw (lookup-insert fp fp (next_entry d fp reason now) d.entries, str_eq_refl fp) refl

module _ (d : Detector) (fp reason : String) (now : Time) (n i : ℕ) where
  -- One more failure: the detector counts it, and detects a loop if it is the n-th.
  abbrev Steps : Type 0
  Steps =
      Counted (record_failure d fp reason now).0 fp n (suc i) now
      × ((record_failure d fp reason now).1 ≡ (suc i == n))
      × ((record_failure d fp reason now).2 ≡ suc i)

  pub later_failure : {last : Time} → Counted d fp n i last → since now last ≤ℤ d.window → Steps
  unfolding record_failure entry_at bump
  later_failure c w = (
    record {
      threshold_is = c.threshold_is;
      entry = next_entry d fp reason now;
      stored = stored-record_failure d fp reason now;
      counts = ground arith;
      told = ground arith;
      at = ground arith;
    },
    ground arith,
    ground arith,
  )

pub first_failure :
    (d : Detector) (fp reason : String) (now : Time) (n : ℕ)
    → d.threshold ≡ pos (suc n)
    → lookup fp d.entries ≡ none
    → Steps d fp reason now (suc n) 0
unfolding record_failure entry_at bump
first_failure d fp reason now n t a = (
  record {
    threshold_is = t;
    entry = next_entry d fp reason now;
    stored = stored-record_failure d fp reason now;
    counts = ground arith;
    told = ground arith;
    at = ground arith;
  },
  ground arith,
  ground arith,
)

window-record_failure :
    (d : Detector) (fp reason : String) (now : Time)
    → (record_failure d fp reason now).0.window ≡ d.window
unfolding record_failure
window-record_failure d fp reason now = refl

count_from :
    (fs : List Failure) (d : Detector) (fp : String) (n i : ℕ) (last : Time)
    → Counted d fp n i last
    → IsClose d.window last fs
    → (answers d fp fs ≡ only_at n (suc i) fs)
      × Counted (fail_all d fp fs) fp n (i + length fs) (last_time last fs)
unfolding answers fail_all
count_from [] d fp n i last c w = (refl, rw add-zero c)
count_from (f ∷ fs) d fp n i last c w =
    let s = later_failure d fp f.0 f.1 n i c w.0 in
    let rest =
      count_from fs (record_failure d fp f.0 f.1).0 fp n (suc i) f.1 s.0
        (rw (window-record_failure d fp f.0 f.1) w.1) in
    (cc (s.1, s.2, rest.0), rw (move i (length fs)) rest.1)
  where
    move : (i j : ℕ) → i + suc j ≡ suc i + j
    move i j = omega arith

-- A request pattern with no entry that fails again and again, never with a longer pause than the
-- window: the counts are 1, 2, 3, ... and a loop is reported exactly once, at the n-th failure,
-- where n is the threshold.
detects_once :
    (d : Detector) (fp : String) (n : ℕ) (f : Failure) (fs : List Failure)
    → d.threshold ≡ pos (suc n)
    → lookup fp d.entries ≡ none
    → IsClose d.window f.1 fs
    → answers d fp (f ∷ fs) ≡ only_at (suc n) 1 (f ∷ fs)
unfolding answers
detects_once d fp n f fs t a w =
    let s = first_failure d fp f.0 f.1 n t a in
    let rest =
      count_from fs (record_failure d fp f.0 f.1).0 fp (suc n) 1 f.1 s.0
        (rw (window-record_failure d fp f.0 f.1) w) in
    cc (s.1, s.2, rest.0)

pub looping-Counted :
    (d : Detector) (fp : String) (n i : ℕ) (last now : Time)
    → Counted d fp n i last
    → since now last ≤ℤ d.window
    → is_looping d fp now ≡ leb n i
unfolding is_looping
looping-Counted d fp n i last now c w = ground arith

window-fail_all :
    (fs : List Failure) (d : Detector) (fp : String) → (fail_all d fp fs).window ≡ d.window
unfolding fail_all
window-fail_all [] d fp = refl
window-fail_all (f ∷ fs) d fp =
    window-fail_all fs (record_failure d fp f.0 f.1).0 fp ∙ window-record_failure d fp f.0 f.1

-- After failures of a pattern that had no entry, never with a longer pause than the window, the
-- pattern counts as looping exactly when as many failures as the threshold have been recorded, at any
-- instant within the window after the last one.
loops_after :
    (d : Detector) (fp : String) (n : ℕ) (f : Failure) (fs : List Failure) (now : Time)
    → d.threshold ≡ pos (suc n)
    → lookup fp d.entries ≡ none
    → IsClose d.window f.1 fs
    → since now (last_time f.1 fs) ≤ℤ d.window
    → is_looping (fail_all d fp (f ∷ fs)) fp now ≡ leb (suc n) (length (f ∷ fs))
unfolding fail_all
loops_after d fp n f fs now t a w within =
    let d' = (record_failure d fp f.0 f.1).0 in
    let s = first_failure d fp f.0 f.1 n t a in
    let same = window-fail_all fs d' fp ∙ window-record_failure d fp f.0 f.1 in
    let rest = count_from fs d' fp (suc n) 1 f.1 s.0 (rw (window-record_failure d fp f.0 f.1) w) in
    looping-Counted (fail_all d' fp fs) fp (suc n) (1 + length fs) _ now rest.1 (rw same within)
    ∙ ap (leb (suc n)) (omega arith)

lookup-record_success :
    (d : Detector) (fp : String) → lookup fp (record_success d fp).entries ≡ none
unfolding record_success
lookup-record_success d fp = rw (lookup-delete fp fp d.entries, str_eq_refl fp) refl

threshold-record_success :
    (d : Detector) (fp : String) → (record_success d fp).threshold ≡ d.threshold
unfolding record_success
threshold-record_success d fp = refl

pub looping-none :
    (d : Detector) (fp : String) (now : Time)
    → lookup fp d.entries ≡ none
    → is_looping d fp now ≡ false
unfolding is_looping
looping-none d fp now a = ground arith

-- A success forgets the pattern: it is not looping at any instant, and its next failure has the
-- count 1 and is reported only if the threshold is 1.
success_forgets :
    (d : Detector) (fp reason : String) (now later : Time) (n : ℕ)
    → d.threshold ≡ pos (suc n)
    → let d' = record_success d fp in
      (is_looping d' fp now ≡ false)
      × ((record_failure d' fp reason later).1 ≡ (n == 0))
      × ((record_failure d' fp reason later).2 ≡ 1)
success_forgets d fp reason now later n t =
    let gone = lookup-record_success d fp in
    let s =
      first_failure (record_success d fp) fp reason later n (rw (threshold-record_success d fp) t)
        gone in
    (looping-none (record_success d fp) fp now gone, s.1 ∙ one n, s.2)
  where
    one : (k : ℕ) → (1 == suc k) ≡ (k == 0)
    one k = ground arith

-- The failures and successes of one pattern leave what is known of every other pattern alone.
step-frame :
    (d : Detector) (fp j reason : String) (now : Time)
    → fp ≢ j
    → (lookup j (record_failure d fp reason now).0.entries ≡ lookup j d.entries)
      × (lookup j (record_success d fp).entries ≡ lookup j d.entries)
unfolding record_failure record_success
step-frame d fp j reason now h = (
  ground (arith, eq_iff fp j, lookup-insert fp j (next_entry d fp reason now) d.entries),
  ground (arith, eq_iff fp j, lookup-delete fp j d.entries),
)
