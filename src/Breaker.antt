-- ===== src/Breaker.antt =====
-- services/signalmesh-node/internal/circuitbreaker/circuitbreaker.go: the circuit breaker. The
-- mutex makes each method one step; a method that mutates `*Breaker` returns the new record.
-- `now` is the method's own reading of the clock, `at` the reading that `setState` makes.
pub mod Invariant
pub mod Transitions
pub mod Streak
pub mod Recovery
use signalmesh.Base.{ℕ, ◌+◌, ◌*◌, Bool, true, false, List, [], ◌∷◌, if◌then◌else◌}
use signalmesh.Base.Int.{ℤ, pos, ltb_ℤ, leb_ℤ}
use signalmesh.Base.Clock.{Time, Duration, second, since}

pub data State : Type 0 where
  closed open_ half_open : State

pub record Config : Type 0 where
  pub failure_threshold : ℤ
  pub cooldown : Duration
  pub half_open_success_threshold : ℤ
  pub half_open_max_probes : ℤ

abbrev pub default_config : Config
default_config = record {
  failure_threshold = pos 3;
  cooldown = pos (5 * second);
  half_open_success_threshold = pos 1;
  half_open_max_probes = pos 1;
}

pub record Breaker : Type 0 where
  pub cfg : Config
  pub state : State
  pub failures : ℕ
  pub successes : ℕ
  pub half_open_probes : ℕ
  pub last_state_change : Time

-- A configured value, or the default where it is not positive.
abbrev or_default : ℤ → ℤ → ℤ
or_default v d = if leb_ℤ v (pos 0) then d else v

unfoldable pub new : Config → Time → Breaker
new cfg now = record {
  cfg = record {
    failure_threshold = or_default cfg.failure_threshold (pos 3);
    cooldown = or_default cfg.cooldown (pos (5 * second));
    half_open_success_threshold = or_default cfg.half_open_success_threshold (pos 1);
    half_open_max_probes = or_default cfg.half_open_max_probes (pos 1);
  };
  state = State.closed;
  failures = 0;
  successes = 0;
  half_open_probes = 0;
  last_state_change = now;
}

unfoldable pub set_state : Breaker → State → Time → Breaker
set_state b state at = record b {
  state = state;
  last_state_change = at;
  failures = 0;
  successes = 0;
  half_open_probes = 0;
}

abbrev cooled : Breaker → Time → Bool
cooled b now = leb_ℤ b.cfg.cooldown (since now b.last_state_change)

abbrev probe_free : Breaker → Bool
probe_free b = ltb_ℤ (pos b.half_open_probes) b.cfg.half_open_max_probes

available_in : State → Breaker → Time → Bool
available_in State.closed b now = true
available_in State.open_ b now = cooled b now
available_in State.half_open b now = probe_free b

unfoldable pub available : Breaker → Time → Bool
unfolding available_in
available b now = available_in b.state b now

allow_in : State → Breaker → Time → Time → Breaker × Bool
unfolding set_state
allow_in State.closed b now at = (b, true)
allow_in State.open_ b now at =
    if cooled b now
    then (let c = set_state b State.half_open at in (record c { half_open_probes = 1 }, true))
    else (b, false)
allow_in State.half_open b now at =
    if probe_free b
    then (record b { half_open_probes = b.half_open_probes + 1 }, true)
    else (b, false)

unfoldable pub allow : Breaker → Time → Time → Breaker × Bool
unfolding allow_in
allow b now at = allow_in b.state b now at

record_success_in : State → Breaker → Time → Breaker
unfolding set_state
record_success_in State.closed b at = record b { failures = 0 }
record_success_in State.half_open b at =
    let c = record b { successes = b.successes + 1 } in
    if leb_ℤ b.cfg.half_open_success_threshold (pos c.successes)
    then set_state c State.closed at
    else c
record_success_in State.open_ b at = b

unfoldable pub record_success : Breaker → Time → Breaker
unfolding record_success_in
record_success b at = record_success_in b.state b at

record_failure_in : State → Breaker → Time → Breaker
unfolding set_state
record_failure_in State.closed b at =
    let c = record b { failures = b.failures + 1 } in
    if leb_ℤ b.cfg.failure_threshold (pos c.failures) then set_state c State.open_ at else c
record_failure_in State.half_open b at = set_state b State.open_ at
record_failure_in State.open_ b at = b

unfoldable pub record_failure : Breaker → Time → Breaker
unfolding record_failure_in
record_failure b at = record_failure_in b.state b at

reset_in : State → Breaker → Time → Breaker
unfolding set_state
reset_in State.closed b at = b
reset_in _ b at = set_state b State.closed at

unfoldable pub reset : Breaker → Time → Breaker
unfolding reset_in
reset b at = reset_in b.state b at

trip_in : State → Breaker → Time → Breaker
unfolding set_state
trip_in State.open_ b at = b
trip_in _ b at = set_state b State.open_ at

unfoldable pub trip : Breaker → Time → Breaker
unfolding trip_in
trip b at = trip_in b.state b at

-- The calls that reach a breaker, each with its readings of the clock.
pub data Call : Type 0 where
  allows : Time → Time → Call
  succeeds fails resets trips : Time → Call

unfoldable pub step : Breaker → Call → Breaker
unfolding allow record_success record_failure reset trip
step b (Call.allows now at) = (allow b now at).0
step b (Call.succeeds at) = record_success b at
step b (Call.fails at) = record_failure b at
step b (Call.resets at) = reset b at
step b (Call.trips at) = trip b at

unfoldable pub run : Breaker → List Call → Breaker
run b [] = b
run b (c ∷ cs) = run (step b c) cs
