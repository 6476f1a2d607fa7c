-- ===== src/Examples/Breakers.antt =====
-- Circuit breakers at work.
use signalmesh.Base.{◌*◌, ◌≡◌, refl, ◌↔◌, false, List, [], ◌∷◌, arith, All}
use signalmesh.Base.Int.{pos}
use signalmesh.Base.Clock.{second}
use signalmesh.Breaker.{State, Breaker, Call, default_config, new, allow, run, step}
use signalmesh.Breaker.Transitions.{answers, open_blocks}
use signalmesh.Breaker.Streak.{HasStreak, opens_iff_streak}
use signalmesh.Breaker.Recovery.{Probe, probes, AllTrue, recovers, wedges}

-- A success between failures, then three failures in a row.
abbrev outage : List Call
outage =
    Call.fails 1 ∷ Call.fails 2 ∷ Call.succeeds 3 ∷ Call.fails 4 ∷ Call.fails 5 ∷ Call.fails 6 ∷ []

abbrev opened : Breaker
opened = record {
  cfg = default_config;
  state = State.open_;
  failures = 0;
  successes = 0;
  half_open_probes = 0;
  last_state_change = 6;
}

outage_opens : run (new default_config 0) outage ≡ opened
unfolding run step new
outage_opens = refl

opens_iff_streak_example :
    ((run (new default_config 0) outage).state ≡ State.open_) ↔ HasStreak 3 outage
opens_iff_streak_example =
    opens_iff_streak default_config 2 0 outage refl (tt, (tt, (tt, (tt, (tt, (tt, tt))))))

abbrev storm : List Call
storm =
    Call.allows 7 7 ∷ Call.succeeds 8 ∷ Call.fails 9 ∷ Call.allows (4 * second) (4 * second) ∷ []

open_blocks_example : (run opened storm ≡ opened) × All (λ r. r ≡ false) (answers opened storm)
open_blocks_example = open_blocks opened storm refl (omega arith, (tt, (tt, (omega arith, tt))))

abbrev probe : Probe
probe = record { now = 6 * second; at = 6 * second; done = 7 * second }

recovers_example :
    ((run opened (probes (probe ∷ []))).state ≡ State.closed)
    × AllTrue (answers opened (probes (probe ∷ [])))
recovers_example = recovers opened probe [] refl (omega arith) refl (omega arith)

-- Two successes are wanted, but one probe is allowed.
abbrev strict : Breaker
strict = record opened { cfg = record default_config { half_open_success_threshold = pos 2 } }

wedges_example :
    ((run strict (probes (probe ∷ []))).state ≡ State.half_open)
    × (allow (run strict (probes (probe ∷ []))) (1000 * second) (1000 * second)
        ≡ (run strict (probes (probe ∷ [])), false))
wedges_example =
    wedges strict probe [] (1000 * second) (1000 * second) refl (omega arith) refl (omega arith)
