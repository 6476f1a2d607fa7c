-- ===== src/Chaos/Bursts.antt =====
-- A load scenario is bounded: every worker ends, and sends no more requests than its pauses allow.
use signalmesh.Base.{ℕ, ◌+◌, ◌*◌, ◌-◌, ◌≤◌, ◌<◌, ◌≡◌, Bool, true, List, [], ◌∷◌, arith, length}
use native.Mathlib.Nat.{suc-mul, zero-mul}
use signalmesh.Base.Int.{pos, wrap64}
use signalmesh.Base.Clock.{Time, second}
use signalmesh.Chaos.{LoadSpec}
use signalmesh.Chaos.Load.{Tick, pause, worker, load_deadline}

-- The clock of a worker, from an instant on: each round comes a pause after the one before.
abbrev pub IsPaced : ℕ → Time → List Tick → Type 0
IsPaced p from [] = Unit
IsPaced p from (t ∷ ts) = (from ≤ t.now) × IsPaced p (t.now + p) ts

few :
    (p e from : ℕ) (ts : List Tick)
    → IsPaced p from ts
    → length (worker (pos e) ts).0 * p ≤ (e + p) - from
unfolding worker
few p e from [] h = rw (zero-mul p) (omega arith)
few p e from (t ∷ ts) h =
    let ih = few p e (t.now + p) ts h.1 in
    let more = suc-mul (length (worker (pos e) ts).0) p in
    ground (arith, ih, more, h.0, suc-mul 0 p, zero-mul p)

ends :
    (p e from : ℕ) (ts : List Tick)
    → IsPaced p from ts
    → (e + p) - from < length ts * p
    → (worker (pos e) ts).1 ≡ true
unfolding worker
ends p e from [] h enough = absurd (omega (arith, enough, zero-mul p))
ends p e from (t ∷ ts) h enough =
    let more = suc-mul (length ts) p in
    ground (arith, ends p e (t.now + p) ts h.1, more, h.0, enough)

-- A worker that sends few requests, and that ends if it is given enough rounds.
pub record IsBurst (spec : LoadSpec) (d : ℕ) (ts : List Tick) (sent : List Time × Bool)
    : Type 0 where
  pub bounded : length sent.0 * pause spec ≤ d * second + pause spec
  pub ended : d * second + pause spec < length ts * pause spec → sent.1 ≡ true

wrap_small : (n : ℕ) → n < 9223372036854775808 → wrap64 (pos n) ≡ pos n
wrap_small n h = ground (arith, h)

deadline_lem :
    (start d : ℕ)
    → d * second < 9223372036854775808
    → load_deadline start (pos d) ≡ pos (start + d * second)
deadline_lem start d small = rw (wrap_small (d * second) small) (ground arith)

-- Each worker of a load scenario of d seconds, a number whose nanoseconds fit in 64 bits, sends at
-- most one request more than d seconds hold pauses, and ends: given more rounds than that it stops.
pub worker-IsBurst :
    (spec : LoadSpec) (start d : ℕ) (ts : List Tick)
    → d * second < 9223372036854775808
    → IsPaced (pause spec) start ts
    → IsBurst spec d ts (worker (load_deadline start (pos d)) ts)
worker-IsBurst spec start d ts small paced = rw (deadline_lem start d small) (record {
  bounded = omega (arith, few (pause spec) (start + d * second) start ts paced);
  ended = λ enough. ends (pause spec) (start + d * second) start ts paced (omega (arith, enough));
})
