-- ===== src/Breaker/Invariant.antt =====
-- What holds of a breaker between two calls.
use signalmesh.Base.{◌<◌, ◌≡◌, ◌⊎◌, false, List, [], ◌∷◌, arith}
use signalmesh.Base.Int.{pos, ◌<ℤ◌, ◌≤ℤ◌}
use signalmesh.Base.Clock.{Time}
use signalmesh.Breaker.{State, Config, Breaker, new, available, allow, step, run, Call}

pub record IsValid (b : Breaker) : Type 0 where
  pub threshold_pos : pos 0 <ℤ b.cfg.failure_threshold
  pub cooldown_pos : pos 0 <ℤ b.cfg.cooldown
  pub success_pos : pos 0 <ℤ b.cfg.half_open_success_threshold
  pub probes_pos : pos 0 <ℤ b.cfg.half_open_max_probes
  pub below_threshold : pos b.failures <ℤ b.cfg.failure_threshold
  pub below_success : pos b.successes <ℤ b.cfg.half_open_success_threshold
  pub probes_bounded : pos b.half_open_probes ≤ℤ b.cfg.half_open_max_probes
  pub open_clear : b.state ≡ State.open_ → b.failures ≡ 0
  pub half_clear : b.state ≡ State.half_open → (b.failures ≡ 0) × (0 < b.half_open_probes)
  pub not_half : (b.state ≡ State.half_open) ⊎ ((b.successes ≡ 0) × (b.half_open_probes ≡ 0))

pub new-IsValid : (cfg : Config) (now : Time) → IsValid (new cfg now)
unfolding new
new-IsValid cfg now = ground arith

pub step-IsValid : (b : Breaker) (c : Call) → IsValid b → IsValid (step b c)
unfolding step
step-IsValid b (Call.allows now at) v = ground arith
step-IsValid b (Call.succeeds at) v = ground arith
step-IsValid b (Call.fails at) v = ground arith
step-IsValid b (Call.resets at) v = ground arith
step-IsValid b (Call.trips at) v = ground arith

pub run-IsValid : (b : Breaker) (cs : List Call) → IsValid b → IsValid (run b cs)
unfolding run
run-IsValid b [] v = v
run-IsValid b (c ∷ cs) v = run-IsValid (step b c) cs (step-IsValid b c v)

-- Whatever configuration a breaker is made with and whatever calls it gets, its thresholds are
-- positive and its three counters stay within them: fewer failures than the failure threshold,
-- fewer successes than the success threshold, no more probes than the probe limit. Successes and
-- probes are 0 outside HALF_OPEN, and failures are 0 outside CLOSED.
run-new-IsValid : (cfg : Config) (now : Time) (cs : List Call) → IsValid (run (new cfg now) cs)
run-new-IsValid cfg now cs = run-IsValid (new cfg now) cs (new-IsValid cfg now)

-- `Available` promises what `Allow` answers at the same instant, and a call that `Allow` refuses
-- leaves the breaker as it was.
pub available-allow :
    (b : Breaker) (now at : Time)
    → (available b now ≡ (allow b now at).1) × ((allow b now at).1 ≡ false → (allow b now at).0 ≡ b)
unfolding available allow
available-allow b now at = ground arith
