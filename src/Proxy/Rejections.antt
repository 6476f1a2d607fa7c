-- ===== src/Proxy/Rejections.antt =====
-- What a failing path of the loop does to the node.
use signalmesh.Base.{
  ℕ, ◌≡◌, ◌≢◌, refl, ap, ◌∙◌, inl, inr, Bool, true, false, not, Option, none, some, List, [], ◌∷◌,
  ◌++◌, String, Bool-cases,
}
use signalmesh.LoopDetector
use signalmesh.Router.{ProviderEntry}
use signalmesh.Reasons.{Reason, Phase}
use signalmesh.Proxy.State.{Node, Round, Context, FailureState, Verdict}
use signalmesh.Proxy.Failure.{
  can_retry, handle_failure, fail_with, trip_entry, report_loop, failure_reason,
}

-- Two states that differ in their breakers alone.
pub record SameBooks {F : Type 0} (n n' : Node F) : Type 0 where
  pub entries : n'.entries ≡ n.entries
  pub detector : n'.detector ≡ n.detector
  pub budgets : n'.budgets ≡ n.budgets
  pub escalator : n'.escalator ≡ n.escalator
  pub reporter : n'.reporter ≡ n.reporter

pub append_not_nil : (xs ys : List Reason) → ys ≢ [] → xs ++ ys ≢ []
append_not_nil [] ys h = h
append_not_nil (x ∷ xs) ys h = λ e. cc

not-not : (b : Bool) → not b ≡ false → b ≡ true
not-not true h = refl
not-not false h = cc

module _ {F : Type 0} (c : Context F) (r : Round F) (n : Node F) where
  -- A failed attempt: it has a phase and reasons, costs nothing, and is counted by the detector. The
  -- loop goes on only where `canRetry` allows it.
  pub record IsRejected (attempt : ℕ) (n' : Node F) (f : FailureState F) (stop : Bool)
      : Type 0 where
    pub numbered : f.attempt ≡ attempt
    pub phased : f.phase ≢ Phase.unset
    pub explained : f.reason_codes ≢ []
    pub entries : n'.entries ≡ n.entries
    pub budgets : n'.budgets ≡ n.budgets
    pub escalator : n'.escalator ≡ n.escalator
    pub reason : String
    pub counted :
        n'.detector ≡ (LoopDetector.record_failure n.detector c.fingerprint reason r.failure_now).0
    pub retried : stop ≡ false → can_retry c.pol attempt c.deadline f.phase r.retry_now ≡ true
    pub stopped : f.phase ≡ Phase.agent_loop → stop ≡ true

  -- What `handleFailure` leaves alone, and what it counts.
  abbrev Handled : FailureState F → Node F → Node F × Bool → Type 0
  Handled f n1 (n', detected) =
      (n'.entries ≡ n1.entries)
      × (n'.budgets ≡ n1.budgets)
      × (n'.escalator ≡ n1.escalator)
      × (n'.detector
          ≡ (LoopDetector.record_failure n1.detector c.fingerprint (failure_reason f.phase)
              r.failure_now).0)

  handle_failure-Handled :
      (entry : Option (ProviderEntry F)) (f : FailureState F) (n1 : Node F)
      → Handled f n1 (handle_failure c r entry f n1)
  unfolding handle_failure trip_entry report_loop
  handle_failure-Handled none f n1 =
      elim (Bool-cases
        (LoopDetector.record_failure n1.detector c.fingerprint (failure_reason f.phase)
          r.failure_now).1) [
            | inl d ↦ rw d (refl, refl, refl, refl)
            | inr d ↦ rw d (refl, refl, refl, refl)
          ]
  handle_failure-Handled (some e) f n1 =
      elim (Bool-cases
        (LoopDetector.record_failure n1.detector c.fingerprint (failure_reason f.phase)
          r.failure_now).1) [
            | inl d ↦ rw d (refl, refl, refl, refl)
            | inr d ↦ rw d (refl, refl, refl, refl)
          ]

  -- An end of an attempt that failed.
  abbrev pub Rejected : ℕ → Node F × Verdict F → Type 0
  Rejected attempt (n', Verdict.rejected f stop) = IsRejected attempt n' f stop
  Rejected attempt (n', Verdict.accepted resp d) = ⊥
  Rejected attempt (n', Verdict.panicked) = ⊥

  pub fail_with-Rejected :
      (entry : Option (ProviderEntry F)) (f : FailureState F) (n1 : Node F)
      → SameBooks n n1
      → f.phase ≢ Phase.unset
      → f.phase ≢ Phase.agent_loop
      → f.reason_codes ≢ []
      → Rejected f.attempt (fail_with c r entry f n1)
  unfolding fail_with
  fail_with-Rejected entry f n1 s p a h =
      let (e, b, x, d) = handle_failure-Handled entry f n1 in
      let counted =
        d
        ∙ ap
            (λ t.
              (LoopDetector.record_failure t c.fingerprint (failure_reason f.phase)
                r.failure_now).0)
            s.detector in
      elim (Bool-cases (handle_failure c r entry f n1).1) [
        | inl found ↦ rw found (record {
          numbered = refl;
          phased = λ q. cc;
          explained = append_not_nil f.reason_codes (Reason.agent_loop_detected ∷ []) (λ q. cc);
          entries = e ∙ s.entries;
          budgets = b ∙ s.budgets;
          escalator = x ∙ s.escalator;
          reason = failure_reason f.phase;
          counted = counted;
          retried = λ q. cc;
          stopped = λ _. refl;
        })
        | inr unknown ↦ rw unknown (record {
          numbered = refl;
          phased = p;
          explained = h;
          entries = e ∙ s.entries;
          budgets = b ∙ s.budgets;
          escalator = x ∙ s.escalator;
          reason = failure_reason f.phase;
          counted = counted;
          retried = λ q. not-not _ q;
          stopped = λ q. absurd (a q);
        })
      ]
