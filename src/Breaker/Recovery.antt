-- ===== src/Breaker/Recovery.antt =====
-- How a breaker comes back from OPEN, and a configuration with which it does not.
use signalmesh.Base.{
  ℕ, suc, ◌+◌, ◌≤◌, ◌<◌, ◌≡◌, refl, ap, ◌∙◌, Bool, true, false, List, [], ◌∷◌, arith, length, All,
}
use native.Mathlib.Nat.{add-zero, zero-add}
use signalmesh.Base.Int.{ℤ, pos, ◌<ℤ◌, ◌≤ℤ◌}
use signalmesh.Base.Clock.{Time, since}
use signalmesh.Breaker.{State, Breaker, Call, allow, set_state, step, run}
use signalmesh.Breaker.Transitions.{answers, step-cfg}

-- A probe: its request is let through at `now` (`at` is the clock of a change of state), and it
-- succeeds at `done`.
pub record Probe : Type 0 where
  pub now : Time
  pub at : Time
  pub done : Time

abbrev pub probes : List Probe → List Call
probes [] = []
probes (p ∷ ps) = Call.allows p.now p.at ∷ Call.succeeds p.done ∷ probes ps

abbrev pub AllTrue : List Bool → Type 0
AllTrue = All (λ r. r ≡ true)

-- Half open with as many probes let through as have succeeded.
record Probing (b : Breaker) (k : ℕ) : Type 0 where
  half : b.state ≡ State.half_open
  let_through : b.half_open_probes ≡ k
  succeeded : b.successes ≡ k

module _ (b : Breaker) (k : ℕ) (h : Probing b k) (p : Probe) where
  probe_allowed :
      pos k <ℤ b.cfg.half_open_max_probes
      → allow b p.now p.at ≡ (record b { half_open_probes = suc k }, true)
  unfolding allow
  probe_allowed m = ground arith

  probe_counts :
      pos k <ℤ b.cfg.half_open_max_probes
      → pos (suc k) <ℤ b.cfg.half_open_success_threshold
      → step (step b (Call.allows p.now p.at)) (Call.succeeds p.done)
        ≡ record b { half_open_probes = suc k; successes = suc k }
  unfolding step
  probe_counts m s = ground arith

  probe_closes :
      pos k <ℤ b.cfg.half_open_max_probes
      → b.cfg.half_open_success_threshold ≤ℤ pos (suc k)
      → (step (step b (Call.allows p.now p.at)) (Call.succeeds p.done)).state ≡ State.closed
  unfolding step
  probe_closes m s = ground arith

-- A round that is let through and counted.
probe-Probing :
    (b : Breaker) (k : ℕ) (p : Probe)
    → Probing b k
    → pos k <ℤ b.cfg.half_open_max_probes
    → pos (suc k) <ℤ b.cfg.half_open_success_threshold
    → Probing (step (step b (Call.allows p.now p.at)) (Call.succeeds p.done)) (suc k)
probe-Probing b k p h m s =
    rw (probe_counts b k h p m s) (record { half = h.half; let_through = refl; succeeded = refl })

probe-cfg :
    (b : Breaker) (p : Probe)
    → (step (step b (Call.allows p.now p.at)) (Call.succeeds p.done)).cfg ≡ b.cfg
probe-cfg b p =
    rw (step-cfg (step b (Call.allows p.now p.at)) (Call.succeeds p.done))
      (step-cfg b (Call.allows p.now p.at))

below_of_eq : (a m : ℤ) (n k : ℕ) → a ≡ pos n → a ≤ℤ m → k < n → pos k <ℤ m
below_of_eq a m n k e h l = ground arith

below_of_lt : (a m : ℤ) (n k : ℕ) → a ≡ pos n → a <ℤ m → k ≤ n → pos k <ℤ m
below_of_lt a m n k e h l = ground arith

closes_from :
    (ps : List Probe) (p : Probe) (b : Breaker) (k : ℕ)
    → Probing b k
    → b.cfg.half_open_success_threshold ≡ pos (k + suc (length ps))
    → b.cfg.half_open_success_threshold ≤ℤ b.cfg.half_open_max_probes
    → ((run b (probes (p ∷ ps))).state ≡ State.closed) × AllTrue (answers b (probes (p ∷ ps)))
unfolding run answers
closes_from [] p b k h s m =
    let room = below_of_eq _ b.cfg.half_open_max_probes _ k s m (omega arith) in
    (
      probe_closes b k h p room (rw s (omega arith)),
      (ap (λ r. r.1) (probe_allowed b k h p room), tt),
    )
closes_from (q ∷ ps) p b k h s m =
    let room = below_of_eq _ b.cfg.half_open_max_probes _ k s m (omega arith) in
    let more =
      below_of_eq _ b.cfg.half_open_success_threshold _ (suc k) s (omega arith) (omega arith) in
    let rest =
      closes_from ps q (step (step b (Call.allows p.now p.at)) (Call.succeeds p.done)) (suc k)
        (probe-Probing b k p h room more) (rw (probe-cfg b p) (s ∙ ap pos (omega arith)))
        (rw (probe-cfg b p) m) in
    (rest.0, (ap (λ r. r.1) (probe_allowed b k h p room), rest.1))

-- The first request after the cooldown is a probe.
allow_cooled :
    (b : Breaker) (now at : Time)
    → b.state ≡ State.open_
    → b.cfg.cooldown ≤ℤ since now b.last_state_change
    → pos 0 <ℤ b.cfg.half_open_max_probes
    → allow b now at ≡ allow (set_state b State.half_open at) now at
unfolding allow
allow_cooled b now at o c m = ground arith

set_state-Probing : (b : Breaker) (at : Time) → Probing (set_state b State.half_open at) 0
unfolding set_state
set_state-Probing b at = record { half = refl; let_through = refl; succeeded = refl }

set_state-cfg : (b : Breaker) (s : State) (at : Time) → (set_state b s at).cfg ≡ b.cfg
unfolding set_state
set_state-cfg b s at = refl

step-allows : (b : Breaker) (now at : Time) → step b (Call.allows now at) ≡ (allow b now at).0
unfolding step
step-allows b now at = refl

run_cooled :
    (b : Breaker) (p : Probe) (ps : List Probe)
    → b.state ≡ State.open_
    → b.cfg.cooldown ≤ℤ since p.now b.last_state_change
    → pos 0 <ℤ b.cfg.half_open_max_probes
    → (run b (probes (p ∷ ps)) ≡ run (set_state b State.half_open p.at) (probes (p ∷ ps)))
      × (answers b (probes (p ∷ ps)) ≡ answers (set_state b State.half_open p.at) (probes (p ∷ ps)))
unfolding run answers
run_cooled b p ps o c m =
    (ap (λ x. run (step x (Call.succeeds p.done)) (probes ps)) same, cc (same, bit))
  where
    h : Breaker
    h = set_state b State.half_open p.at

    both : allow b p.now p.at ≡ allow h p.now p.at
    both = allow_cooled b p.now p.at o c m

    same : step b (Call.allows p.now p.at) ≡ step h (Call.allows p.now p.at)
    same = rw (step-allows b p.now p.at, step-allows h p.now p.at) (ap (λ r. r.0) both)

    bit : (allow b p.now p.at).1 ≡ (allow h p.now p.at).1
    bit = ap (λ r. r.1) both

-- From OPEN, once the cooldown is over, as many successful probes as the success threshold close
-- the breaker, and each of their requests is let through, if the configuration allows that many
-- probes.
pub recovers :
    (b : Breaker) (p : Probe) (ps : List Probe)
    → b.state ≡ State.open_
    → b.cfg.cooldown ≤ℤ since p.now b.last_state_change
    → b.cfg.half_open_success_threshold ≡ pos (suc (length ps))
    → b.cfg.half_open_success_threshold ≤ℤ b.cfg.half_open_max_probes
    → ((run b (probes (p ∷ ps))).state ≡ State.closed) × AllTrue (answers b (probes (p ∷ ps)))
recovers b p ps o c s m =
    let same =
      run_cooled b p ps o c (below_of_eq _ b.cfg.half_open_max_probes _ 0 s m (omega arith)) in
    rw (same.0, same.1)
      (closes_from ps p (set_state b State.half_open p.at) 0 (set_state-Probing b p.at)
        (rw (set_state-cfg b State.half_open p.at) (s ∙ ap pos (omega arith)))
        (rw (set_state-cfg b State.half_open p.at) m))

wedged_from :
    (ps : List Probe) (b : Breaker) (k : ℕ)
    → Probing b k
    → b.cfg.half_open_max_probes ≡ pos (k + length ps)
    → b.cfg.half_open_max_probes <ℤ b.cfg.half_open_success_threshold
    → Probing (run b (probes ps)) (k + length ps) × ((run b (probes ps)).cfg ≡ b.cfg)
unfolding run
wedged_from [] b k h m s = (rw add-zero h, refl)
wedged_from (p ∷ ps) b k h m s =
    let room = below_of_eq _ b.cfg.half_open_max_probes _ k m (omega arith) (omega arith) in
    let more = below_of_lt _ b.cfg.half_open_success_threshold _ (suc k) m s (omega arith) in
    let b' = step (step b (Call.allows p.now p.at)) (Call.succeeds p.done) in
    let rest =
      wedged_from ps b' (suc k) (probe-Probing b k p h room more)
        (rw (probe-cfg b p) (m ∙ ap pos (omega arith))) (rw (probe-cfg b p) s) in
    (rw (move k (length ps)) rest.0, rest.1 ∙ probe-cfg b p)
  where
    move : (i j : ℕ) → i + suc j ≡ suc i + j
    move i j = omega arith

full_refuses :
    (b : Breaker) (k : ℕ) (now at : Time)
    → Probing b k
    → b.cfg.half_open_max_probes ≡ pos k
    → allow b now at ≡ (b, false)
unfolding allow
full_refuses b k now at h m = ground arith

-- With a success threshold above the probe limit an open breaker does not recover: when after the
-- cooldown as many probes as the limit allows have been made and have all succeeded, it is half
-- open, and refuses a request at any instant without a change.
pub wedges :
    (b : Breaker) (p : Probe) (ps : List Probe) (now at : Time)
    → b.state ≡ State.open_
    → b.cfg.cooldown ≤ℤ since p.now b.last_state_change
    → b.cfg.half_open_max_probes ≡ pos (suc (length ps))
    → b.cfg.half_open_max_probes <ℤ b.cfg.half_open_success_threshold
    → ((run b (probes (p ∷ ps))).state ≡ State.half_open)
      × (allow (run b (probes (p ∷ ps))) now at ≡ (run b (probes (p ∷ ps)), false))
wedges b p ps now at o c m s =
    let same = run_cooled b p ps o c (rw m (omega arith)) in
    let keeps = set_state-cfg b State.half_open p.at in
    let end =
      wedged_from (p ∷ ps) (set_state b State.half_open p.at) 0 (set_state-Probing b p.at)
        (rw keeps (m ∙ ap pos (omega arith))) (rw keeps s) in
    rw same.0 (
      end.0.half,
      full_refuses _ (suc (length ps)) now at (rw zero-add at end.0) (rw (end.1, keeps) m),
    )
