-- ===== src/Proxy/Chat.antt =====
-- services/signalmesh-node/internal/proxy/handler.go: the loop of `HandleChat`, what stands
-- before and after it, and the answer.
use signalmesh.Base.{
  ℕ, zero, suc, ◌+◌, true, false, Option, none, some, List, [], ◌∷◌, ◌++◌, if◌then◌else◌,
}
use signalmesh.Base.Int.{pos, pos_part, inc, ltb_ℤ}
use signalmesh.Base.Clock.{Time}
use signalmesh.Base.Float.{Float64}
use signalmesh.Policy.{Policy}
use signalmesh.LoopDetector.{Detector}
use signalmesh.LoopDetector
use signalmesh.Escalation.{Escalator, Escalation, consider, is_budget}
use package.signalmesh.Escalation as Escalations
use signalmesh.Incident.{Reporter, Meta, report}
use signalmesh.Incident
use signalmesh.Reasons.{Reason, Phase}
use signalmesh.Proxy.State.{Node, Round, Context, FailureState, Verdict, Ended, Answer}
use signalmesh.Proxy.Attempt.{no_validation, attempt_once}

-- The `switch` of `writeFailure`.
abbrev pub status_code : Phase → ℕ
status_code Phase.timeout = 504
status_code Phase.budget = 402
status_code Phase.agent_loop = 429
status_code Phase.semantic = 422
status_code Phase.quality = 422
status_code Phase.no_provider = 503
status_code Phase.circuit = 503
status_code Phase.admission = 503
status_code _ = 502

abbrev pub explained : List Reason → List Reason
explained [] = Reason.unknown_failure ∷ []
explained (r ∷ rs) = r ∷ rs

-- The stamps of what may be reported after the loop, and the clock of `IsLooping`.
pub record Closing : Type 0 where
  pub looping_now : Time
  pub budget_stamp : Incident.Stamp
  pub escalation_stamp : Escalations.Stamp

module _ {F : Type 0} ⦃fl : Float64 F⦄ where
  unfoldable pub max_attempts : Policy F → ℕ
  max_attempts pol = let m = inc pol.max_retries in if ltb_ℤ m (pos 1) then 1 else pos_part m

  -- The attempts left, the number of the next one, and `last`.
  unfoldable pub attempts :
      Context F → (ℕ → Round F) → ℕ → ℕ → FailureState F → Node F → Node F × Ended F
  attempts c rounds zero attempt last n = (n, Ended.gave_up last)
  attempts c rounds (suc k) attempt last n =
      let (n', v) = attempt_once c (rounds attempt) attempt n in
      elim v [
        | Verdict.accepted resp d ↦ (n', Ended.answered resp d)
        | Verdict.rejected f true ↦ (n', Ended.gave_up f)
        | Verdict.rejected f false ↦ attempts c rounds k (attempt + 1) f n'
        | Verdict.panicked ↦ (n', Ended.crashed)
      ]

  unfoldable pub write_failure : FailureState F → Option (Escalation F) → Answer F
  write_failure f esc =
      Answer.failure (status_code f.phase) (record f { reason_codes = explained f.reason_codes })
        esc

  abbrev pub with_attention : FailureState F → Option (Escalation F) → FailureState F
  with_attention f none = f
  with_attention f (some x) = record f {
    reason_codes = f.reason_codes ++ Reason.human_attention_required ∷ [];
  }

  -- A failure goes to the escalator and then to the client.
  unfoldable pub give_up :
      Context F → Escalations.Stamp → FailureState F → Node F → Node F × Answer F
  give_up c stamp f n =
      let (e, esc) =
        consider n.escalator c.req c.pol
          (record {
            phase = f.phase;
            provider = f.provider;
            attempt = f.attempt;
            validation = f.validation;
            reason_codes = f.reason_codes;
          })
          stamp in
      (record n { escalator = e }, write_failure (with_attention f esc) esc)

  unfoldable pub report_budget : Context F → Incident.Stamp → FailureState F → Node F → Node F
  report_budget c stamp f n =
      if is_budget f.phase
      then record n {
        reporter =
            report n.reporter stamp Incident.Kind.budget_exhausted c.req.request_id c.req.agent_id
              f.provider Incident.Severity.high "Request budget or agent budget exhausted"
              f.reason_codes (("task_type", Meta.text c.req.task_type) ∷ []);
      }
      else n

  abbrev pub blank : FailureState F
  blank = record {
    phase = Phase.unset;
    provider = "";
    attempt = 0;
    validation = no_validation;
    decision = none;
    reason_codes = [];
  }

  -- The answer to a request pattern that is looping already.
  abbrev pub loop_failure : FailureState F
  loop_failure = record blank {
    phase = Phase.agent_loop;
    reason_codes = Reason.agent_loop_detected ∷ Reason.runaway_retry_stopped ∷ [];
  }

  unfoldable pub conclude : Context F → Closing → Node F × Ended F → Node F × Answer F
  conclude c z (n, Ended.answered resp d) = (n, Answer.success resp d)
  conclude c z (n, Ended.gave_up f) =
      give_up c z.escalation_stamp f (report_budget c z.budget_stamp f n)
  conclude c z (n, Ended.crashed) = (n, Answer.panic)

  -- `HandleChat`, behind `Acquire`.
  unfoldable pub serve : Context F → (ℕ → Round F) → Closing → Node F → Node F × Answer F
  serve c rounds z n =
      if LoopDetector.is_looping n.detector c.fingerprint z.looping_now
      then give_up c z.escalation_stamp loop_failure n
      else conclude c z (attempts c rounds (max_attempts c.pol) 1 blank n)

  -- The answer to a request that admission refuses.
  abbrev pub admission_failure : List Reason → FailureState F
  admission_failure rs = record blank {
    phase = Phase.admission;
    reason_codes = Reason.admission_rejected ∷ rs;
  }

  -- `HandleChat` from the call of `Acquire` on, given the reasons if that refuses.
  unfoldable pub handle_chat :
      Context F → (ℕ → Round F) → Closing → Option (List Reason) → Node F → Node F × Answer F
  handle_chat c rounds z none n = serve c rounds z n
  handle_chat c rounds z (some rs) n = (n, write_failure (admission_failure rs) none)
