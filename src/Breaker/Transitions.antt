-- ===== src/Breaker/Transitions.antt =====
-- When a breaker opens, and what it refuses while it is open.
use signalmesh.Base.{◌≡◌, refl, Bool, false, List, [], ◌∷◌, arith, All}
use signalmesh.Base.Int.{◌<ℤ◌}
use signalmesh.Base.Clock.{Time, since}
use signalmesh.Breaker.{State, Breaker, Call, allow, step, run}

-- Every call but `Reset`, and `Allow` only before the cooldown is over.
abbrev pub IsEarly : Breaker → Call → Type 0
IsEarly b (Call.allows now at) = since now b.last_state_change <ℤ b.cfg.cooldown
IsEarly b (Call.resets at) = ⊥
IsEarly b _ = Unit

-- What `Allow` answers to each of the calls, in order.
unfoldable pub answers : Breaker → List Call → List Bool
answers b [] = []
answers b (Call.allows now at ∷ cs) = (allow b now at).1 ∷ answers (step b (Call.allows now at)) cs
answers b (c ∷ cs) = answers (step b c) cs

pub step-IsEarly : (b : Breaker) (c : Call) → b.state ≡ State.open_ → IsEarly b c → step b c ≡ b
unfolding step
step-IsEarly b (Call.allows now at) o e = ground arith
step-IsEarly b (Call.succeeds at) o e = ground arith
step-IsEarly b (Call.fails at) o e = ground arith
step-IsEarly b (Call.resets at) o e = absurd e
step-IsEarly b (Call.trips at) o e = ground arith

allow-IsEarly :
    (b : Breaker) (now at : Time)
    → b.state ≡ State.open_
    → IsEarly b (Call.allows now at)
    → allow b now at ≡ (b, false)
unfolding allow
allow-IsEarly b now at o e = ground arith

-- An open breaker refuses every request until its cooldown is over, whatever else is recorded
-- meanwhile: as long as no `Reset` comes, every `Allow` before that instant answers false, and
-- none of the calls changes the breaker.
pub open_blocks :
    (b : Breaker) (cs : List Call)
    → b.state ≡ State.open_
    → All (IsEarly b) cs
    → (run b cs ≡ b) × All (λ r. r ≡ false) (answers b cs)
unfolding run answers
open_blocks b [] o e = (refl, tt)
open_blocks b (Call.allows now at ∷ cs) o e =
    let rest = open_blocks b cs o e.1 in
    rw (step-IsEarly b (Call.allows now at) o e.0, allow-IsEarly b now at o e.0)
      (rest.0, (refl, rest.1))
open_blocks b (Call.succeeds at ∷ cs) o e =
    rw (step-IsEarly b (Call.succeeds at) o tt) (open_blocks b cs o e.1)
open_blocks b (Call.fails at ∷ cs) o e =
    rw (step-IsEarly b (Call.fails at) o tt) (open_blocks b cs o e.1)
open_blocks b (Call.resets at ∷ cs) o e = absurd e.0
open_blocks b (Call.trips at ∷ cs) o e =
    rw (step-IsEarly b (Call.trips at) o tt) (open_blocks b cs o e.1)

pub step-cfg : (b : Breaker) (c : Call) → (step b c).cfg ≡ b.cfg
unfolding step
step-cfg b (Call.allows now at) = ground arith
step-cfg b (Call.succeeds at) = ground arith
step-cfg b (Call.fails at) = ground arith
step-cfg b (Call.resets at) = ground arith
step-cfg b (Call.trips at) = ground arith
