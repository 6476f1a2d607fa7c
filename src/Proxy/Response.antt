-- ===== src/Proxy/Response.antt =====
-- services/signalmesh-node/internal/proxy/handler.go: `writeSuccess`, `writeFailure` and
-- `writeJSONError` with the headers that they set. A header that is not set reads as "". What
-- package fmt prints is a parameter; the JSON of a body and its text `error` are left out.
use signalmesh.Base.{ℕ, Bool, true, false, Option, none, some, List, [], String, map}
use signalmesh.Base.Text.{codes}
use signalmesh.Base.Float.{Float64}
use signalmesh.Providers.{ModelResponse}
use signalmesh.Budget
use signalmesh.Router.{Decision}
use signalmesh.Escalation.{Escalation}
use signalmesh.Reasons.{Phase, phase_text}
use signalmesh.Metrics.Joined.{join, header_of}
use signalmesh.Proxy.State.{Node, Context, FailureState, Answer}

pub record Headers : Type 0 where
  pub agent : String
  pub task : String
  pub risk : String
  pub traffic_class : String
  pub phase : String
  pub provider : String
  pub fallback : String
  pub reasons : List ℕ
  pub escalation : String
  pub escalation_id : String
  pub request_id : String
  pub budget_remaining : String
  pub content_type : String

abbrev pub no_headers : Headers
no_headers = record {
  agent = "";
  task = "";
  risk = "";
  traffic_class = "";
  phase = "";
  provider = "";
  fallback = "";
  reasons = [];
  escalation = "";
  escalation_id = "";
  request_id = "";
  budget_remaining = "";
  content_type = "";
}

pub data Body (F : Type 0) : Type 0 where
  generated : ModelResponse F → Body F
  failed : FailureState F → Option (Escalation F) → Body F
  refused : List String → Body F

pub record Response (F : Type 0) : Type 0 where
  pub status : ℕ
  pub headers : Headers
  pub body : Body F

-- What package fmt prints: "%d" of a count, "%.6f" of a number.
pub record Formats (F : Type 0) : Type 0 where
  pub decimal : ℕ → String
  pub fixed : F → String

-- "%t".
abbrev pub bool_text : Bool → String
bool_text true = "true"
bool_text false = "false"

abbrev pub phase_header : Phase → String
phase_header Phase.unset = "unknown"
phase_header p = phase_text p

module _ {F : Type 0} ⦃fl : Float64 F⦄ where
  unfoldable pub write_success :
      Formats F → Context F → Node F → ModelResponse F → Decision F → Headers → Response F
  write_success fm c n resp d hs = record {
    status = 200;
    headers = record hs {
      phase = "accepted";
      provider = d.selected_provider;
      fallback = bool_text d.fallback_used;
      reasons = header_of d.reason_codes;
      request_id = c.req.request_id;
      budget_remaining = fm.fixed (Budget.remaining n.budgets c.req.agent_id);
      content_type = "application/json";
    };
    body = Body.generated resp;
  }

  abbrev pub with_decision : Option (Decision F) → Headers → Headers
  with_decision none hs = hs
  with_decision (some d) hs = record hs {
    provider = d.selected_provider;
    fallback = bool_text d.fallback_used;
  }

  abbrev pub with_escalation : Option (Escalation F) → Headers → Headers
  with_escalation none hs = hs
  with_escalation (some e) hs = record hs {
    escalation = "true";
    escalation_id = e.stamp.escalation_id;
  }

  -- `writeFailure`, behind its choice of a status and its default reason.
  unfoldable pub write_failed :
      String → ℕ → FailureState F → Option (Escalation F) → Headers → Response F
  write_failed request_id status f esc hs = record {
    status = status;
    headers =
        record (with_escalation esc
          (with_decision f.decision (record hs { phase = phase_header f.phase }))) {
            request_id = request_id;
            reasons = header_of f.reason_codes;
            content_type = "application/json";
          };
    body = Body.failed f esc;
  }

  unfoldable pub write_json_error : ℕ → List String → Headers → Response F
  write_json_error status reasons hs = record {
    status = status;
    headers = record hs { content_type = "application/json"; reasons = join (map codes reasons) };
    body = Body.refused reasons;
  }

  -- An answer on the wire. A panic writes nothing.
  unfoldable pub respond : Formats F → Context F → Headers → Node F × Answer F → Option (Response F)
  unfolding write_success write_failed
  respond fm c hs (n, Answer.success resp d) = some (write_success fm c n resp d hs)
  respond fm c hs (n, Answer.failure status f esc) =
      some (write_failed c.req.request_id status f esc hs)
  respond fm c hs (n, Answer.panic) = none
