-- ===== src/Proxy/Turns.antt =====
-- Requests of one pattern, one after the other.
use signalmesh.Base.{ℕ, ◌≡◌, List, [], ◌∷◌, String}
use signalmesh.Base.Float.{Float64}
use signalmesh.LoopDetector.Window.{IsIn}
use signalmesh.Proxy.State.{Node, Round, Context, Answer}
use signalmesh.Proxy.Chat.{Closing, serve}

abbrev pub IsFailure : {F : Type 0} → Answer F → Type 0
IsFailure (Answer.failure status f esc) = Unit
IsFailure _ = ⊥

-- A request of the pattern, all of it in the window.
pub record Turn (F : Type 0) (fp : String) (from w : ℕ) : Type 0 where
  pub context : Context F
  pub rounds : ℕ → Round F
  pub closing : Closing
  pub same : context.fingerprint ≡ fp
  pub times : (i : ℕ) → IsIn from w (rounds i).failure_now
  pub asked : IsIn from w closing.looping_now

module _ {F : Type 0} ⦃fl : Float64 F⦄ (fp : String) (from w : ℕ) where
  abbrev pub run_turn : Turn F fp from w → Node F → Node F × Answer F
  run_turn t a = serve t.context t.rounds t.closing a

  -- One request after the other.
  unfoldable pub run_turns : List (Turn F fp from w) → Node F → Node F
  run_turns [] a = a
  run_turns (t ∷ ts) a = run_turns ts (run_turn t a).0

  abbrev pub AllFail : List (Turn F fp from w) → Node F → Type 0
  AllFail [] a = Unit
  AllFail (t ∷ ts) a = IsFailure (run_turn t a).1 × AllFail ts (run_turn t a).0
