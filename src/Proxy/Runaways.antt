-- ===== src/Proxy/Runaways.antt =====
-- A request pattern that keeps failing is stopped.
use signalmesh.Base.{ℕ, ◌≤◌, ◌≡◌, String}
use signalmesh.Base.Float.{Float64, FloatOrder}
use signalmesh.LoopDetector.{Detector}
use signalmesh.LoopDetector.Window.{IsIn, IsSeen}
use signalmesh.Proxy.State.{Node, Round, Context, Ended, Answer}
use signalmesh.Proxy.Turns.{IsFailure}

module _ {F : Type 0} ⦃fl : Float64 F⦄ (o : FloatOrder F) (fp : String) (n from w : ℕ) where
  -- At least k failures have been counted.
  abbrev Reaches : ℕ → Detector → Type 0
  Reaches k d = (j : ℕ) × (k ≤ j) × IsSeen fp n from w d j

  -- What a loop that ends without an answer has counted.
  abbrev IsCountedEnd : ℕ → Node F × Ended F → Type 0
  IsCountedEnd k (m, Ended.answered resp d) = Unit
  IsCountedEnd k (m, Ended.gave_up f) = Reaches k m.detector
  IsCountedEnd k (m, Ended.crashed) = Unit

  module _ (c : Context F) (rounds : ℕ → Round F) (same : c.fingerprint ≡ fp)
      (times : (i : ℕ) → IsIn from w (rounds i).failure_now) where
    -- At least k failures have been counted if the answer is a failure.
    abbrev IsCounted : ℕ → Node F × Answer F → Type 0
    IsCounted k x = IsFailure x.1 → Reaches k x.0.detector
