-- ===== src/Proxy/Endings.antt =====
-- How the loop over the attempts ends.
use signalmesh.Base.{
  ℕ, zero, suc, ◌+◌, ◌-◌, ◌≡◌, ◌≢◌, refl, ◌∙◌, inl, inr, Bool, true, false, [], arith, Bool-cases,
}
use native.Mathlib.Nat.{suc-add}
use signalmesh.Base.Int.{ℤ, pos, pos_part, ltb_ℤ, inc, ◌≤ℤ◌, ◌<ℤ◌}
use signalmesh.Base.Clock.{Time}
use signalmesh.Base.Float.{Float64, FloatOrder}
use signalmesh.Providers.{ModelResponse}
use signalmesh.Policy.{Policy}
use signalmesh.Router.{Decision}
use signalmesh.Reasons.{Phase}
use signalmesh.Proxy.State.{Node, Round, Context, FailureState, Verdict, Ended}
use signalmesh.Proxy.Failure.{can_retry}
use signalmesh.Proxy.Attempt.{attempt_once}
use signalmesh.Proxy.Chat.{attempts, max_attempts}
use signalmesh.Proxy.Rejections.{IsRejected}
use signalmesh.Proxy.Verdicts.{IsAccepted, IsVerdict, attempt_once-IsVerdict}

can_retry_left :
    {F : Type 0} (pol : Policy F) (attempt : ℕ) (deadline : ℤ) (phase : Phase) (now : Time)
    → can_retry pol attempt deadline phase now ≡ true
    → pos attempt <ℤ inc pol.max_retries
unfolding can_retry
can_retry_left pol attempt deadline phase now h = ground arith

-- Two states that differ at most in breakers, detector and incidents.
pub record SameAccounts {F : Type 0} (n n' : Node F) : Type 0 where
  pub entries : n'.entries ≡ n.entries
  pub budgets : n'.budgets ≡ n.budgets
  pub escalator : n'.escalator ≡ n.escalator

pub SameAccounts-refl : {F : Type 0} (n : Node F) → SameAccounts n n
SameAccounts-refl n = record { entries = refl; budgets = refl; escalator = refl }

SameAccounts-trans :
    {F : Type 0} {a b d : Node F} → SameAccounts a b → SameAccounts b d → SameAccounts a d
SameAccounts-trans s t = record {
  entries = t.entries ∙ s.entries;
  budgets = t.budgets ∙ s.budgets;
  escalator = t.escalator ∙ s.escalator;
}

pub max_attempts_lem :
    {F : Type 0} ⦃fl : Float64 F⦄ (pol : Policy F)
    → (k : ℕ) × (max_attempts pol ≡ suc k) × (inc pol.max_retries ≤ℤ pos (1 + k))
unfolding max_attempts
max_attempts_lem pol = elim (Bool-cases (ltb_ℤ (inc pol.max_retries) (pos 1))) [
  | inl none_left ↦ (0, rw none_left refl, ground arith)
  | inr some_left ↦ (pos_part (inc pol.max_retries) - 1, rw some_left (ground arith), ground arith)
]

module _ {F : Type 0} ⦃fl : Float64 F⦄ (c : Context F) (rounds : ℕ → Round F) where
  -- The loop ends with a response that one of its attempts accepted, with all accounts as they were
  -- before that attempt, or with the explained failure of its last attempt and untouched accounts.
  pub record IsAnswered (n n' : Node F) (resp : ModelResponse F) (d : Decision F) : Type 0 where
    pub number : ℕ
    pub before : Node F
    pub untouched : SameAccounts n before
    pub accepted : IsAccepted c (rounds number) before n' resp d

  pub record IsGivenUp (n n' : Node F) (f : FailureState F) : Type 0 where
    pub untouched : SameAccounts n n'
    pub phased : f.phase ≢ Phase.unset
    pub explained : f.reason_codes ≢ []

  abbrev pub IsEnd : Node F → Node F × Ended F → Type 0
  IsEnd n (n', Ended.answered resp d) = IsAnswered n n' resp d
  IsEnd n (n', Ended.gave_up f) = IsGivenUp n n' f
  IsEnd n (n', Ended.crashed) = ⊥

  IsEnd-trans : (a b : Node F) (x : Node F × Ended F) → SameAccounts a b → IsEnd b x → IsEnd a x
  IsEnd-trans a b (n', Ended.answered resp d) s h = record {
    number = h.number;
    before = h.before;
    untouched = SameAccounts-trans s h.untouched;
    accepted = h.accepted;
  }
  IsEnd-trans a b (n', Ended.gave_up f) s h = record {
    untouched = SameAccounts-trans s h.untouched;
    phased = h.phased;
    explained = h.explained;
  }
  IsEnd-trans a b (n', Ended.crashed) s h = h

  rejected-IsGivenUp :
      (n n' : Node F) (i : ℕ) (f : FailureState F) (stop : Bool)
      → IsRejected c (rounds i) n i n' f stop
      → IsGivenUp n n' f
  rejected-IsGivenUp n n' i f stop h = record {
    untouched = record { entries = h.entries; budgets = h.budgets; escalator = h.escalator };
    phased = h.phased;
    explained = h.explained;
  }

  -- What the loop makes of an attempt's end, with `rest` for the rounds left.
  abbrev pub after :
      (ℕ → FailureState F → Node F → Node F × Ended F) → ℕ → Node F × Verdict F → Node F × Ended F
  after rest i (n', Verdict.accepted resp d) = (n', Ended.answered resp d)
  after rest i (n', Verdict.rejected f true) = (n', Ended.gave_up f)
  after rest i (n', Verdict.rejected f false) = rest (i + 1) f n'
  after rest i (n', Verdict.panicked) = (n', Ended.crashed)

  pub attempts-zero :
      (i : ℕ) (last : FailureState F) (n : Node F)
      → attempts c rounds 0 i last n ≡ (n, Ended.gave_up last)
  unfolding attempts
  attempts-zero i last n = refl

  pub attempts-after :
      (k i : ℕ) (last : FailureState F) (n : Node F)
      → attempts c rounds (suc k) i last n
        ≡ after (attempts c rounds k) i (attempt_once c (rounds i) i n)
  unfolding attempts
  attempts-after k i last n = ground arith

  after-IsEnd :
      (rest : ℕ → FailureState F → Node F → Node F × Ended F) (i : ℕ) (n : Node F)
      (x : Node F × Verdict F)
      → IsVerdict c (rounds i) n i x
      → ((f : FailureState F) (n' : Node F) → IsGivenUp n n' f → IsEnd n' (rest (i + 1) f n'))
      → IsEnd n (after rest i x)
  after-IsEnd rest i n (n', Verdict.accepted resp d) h ih = record {
    number = i;
    before = n;
    untouched = SameAccounts-refl n;
    accepted = h;
  }
  after-IsEnd rest i n (n', Verdict.rejected f true) h ih = rejected-IsGivenUp n n' i f true h
  after-IsEnd rest i n (n', Verdict.rejected f false) h ih =
      let g = rejected-IsGivenUp n n' i f false h in
      IsEnd-trans n n' (rest (i + 1) f n') g.untouched (ih f n' g)
  after-IsEnd rest i n (n', Verdict.panicked) h ih = absurd h

  -- The invariant of the loop: its last failure is explained, or an attempt is still to come.
  pub attempts-IsEnd :
      FloatOrder F
      → (k i : ℕ) (last : FailureState F) (n : Node F)
      → (k ≡ 0 → (last.phase ≢ Phase.unset) × (last.reason_codes ≢ []))
      → IsEnd n (attempts c rounds k i last n)
  attempts-IsEnd o zero i last n h =
      rw (attempts-zero i last n)
        (record { untouched = SameAccounts-refl n; phased = (h refl).0; explained = (h refl).1 })
  attempts-IsEnd o (suc k) i last n h = rw (attempts-after k i last n) (
      after-IsEnd (attempts c rounds k) i n _ (attempt_once-IsVerdict c (rounds i) n o i)
        λ f n' g. attempts-IsEnd o k (i + 1) f n' (λ _. (g.phased, g.explained)))

  -- Both sides of the next theorem after one attempt.
  after_same :
      (o : FloatOrder F) (p q : ℕ → FailureState F → Node F → Node F × Ended F) (i : ℕ) (n : Node F)
      (x : Node F × Verdict F)
      → IsVerdict c (rounds i) n i x
      → (pos i <ℤ inc c.pol.max_retries
          → (f : FailureState F) (n' : Node F) → p (i + 1) f n' ≡ q (i + 1) f n')
      → after p i x ≡ after q i x
  after_same o p q i n (n', Verdict.accepted resp d) h same = refl
  after_same o p q i n (n', Verdict.rejected f true) h same = refl
  after_same o p q i n (n', Verdict.rejected f false) h same =
      same (can_retry_left c.pol i c.deadline f.phase (rounds i).retry_now (h.retried refl)) f n'
  after_same o p q i n (n', Verdict.panicked) h same = absurd h

  enough_from :
      FloatOrder F
      → (k j i : ℕ) (last : FailureState F) (n : Node F) → inc c.pol.max_retries ≤ℤ pos (i + k)
      → attempts c rounds (suc (k + j)) i last n ≡ attempts c rounds (suc k) i last n
  enough_from o zero j i last n h =
      rw (attempts-after (0 + j) i last n, attempts-after 0 i last n)
        (after_same o (attempts c rounds (0 + j)) (attempts c rounds 0) i n _
          (attempt_once-IsVerdict c (rounds i) n o i) (λ l f n'. absurd (omega arith)))
  enough_from o (suc k) j i last n h =
      rw (attempts-after (suc k + j) i last n, attempts-after (suc k) i last n)
        (after_same o (attempts c rounds (suc k + j)) (attempts c rounds (suc k)) i n _
          (attempt_once-IsVerdict c (rounds i) n o i)
          (λ l f n'. rw suc-add (enough_from o k j (i + 1) f n' (omega arith))))

  -- The number of attempts never cuts a request short: with any number of rounds more the loop
  -- ends in the same way, since it stops by itself at the last attempt at the latest.
  pub attempts_enough :
      FloatOrder F
      → (j : ℕ) (last : FailureState F) (n : Node F)
      → attempts c rounds (max_attempts c.pol + j) 1 last n
        ≡ attempts c rounds (max_attempts c.pol) 1 last n
  attempts_enough o j last n =
      let (k, e, h) = max_attempts_lem c.pol in rw (e, suc-add) (enough_from o k j 1 last n h)
