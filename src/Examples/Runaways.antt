-- ===== src/Examples/Runaways.antt =====
-- A pattern that fails until it is stopped.
use signalmesh.Base.{ℕ, refl, [], ◌∷◌, List, arith}
use signalmesh.Breaker
use signalmesh.LoopDetector
use signalmesh.Budget
use signalmesh.Proxy.State.{Generated, Round}
use signalmesh.Proxy.Turns.{Turn}
use signalmesh.Examples.Cents.{Cents, cents_float}
use signalmesh.Examples.Requests.{context, rounds, closing}

-- Every provider fails.
abbrev failing : ℕ → Round Cents
failing i = record (rounds i) { failure_now = 1; generate = λ e. Generated.generation_error }

abbrev turn : Turn Cents "a" 0 60000000000
turn = record {
  context = context;
  rounds = failing;
  closing = closing;
  same = refl;
  times = λ i. (omega arith, omega arith);
  asked = (omega arith, omega arith);
}

abbrev turns : List (Turn Cents "a" 0 60000000000)
turns = turn ∷ turn ∷ turn ∷ []
