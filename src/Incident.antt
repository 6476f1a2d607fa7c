-- ===== src/Incident.antt =====
-- services/signalmesh-node/internal/incident/incident.go: the record of incidents. The two random
-- ids and the time are arguments; the publication to NATS and the log line are left out.
use signalmesh.Base.{ℕ, List, [], ◌∷◌, ◌++◌, String}
use signalmesh.Base.Clock.{Time}
use signalmesh.Reasons.{Reason}

pub data Kind : Type 0 where
  agent_loop budget_exhausted : Kind

pub data Severity : Type 0 where
  critical high : Severity

-- A value of the metadata: a text, or a number that is printed in decimal.
pub data Meta : Type 0 where
  text : String → Meta
  decimal : ℕ → Meta

pub record Stamp : Type 0 where
  pub event_id : String
  pub incident_id : String
  pub timestamp : Time

pub record Incident : Type 0 where
  pub stamp : Stamp
  pub kind : Kind
  pub node_id : String
  pub request_id : String
  pub agent_id : String
  pub provider : String
  pub severity : Severity
  pub reason : String
  pub reason_codes : List Reason
  pub metadata : List (String × Meta)

pub record Reporter : Type 0 where
  pub node_id : String
  pub incidents : List Incident

unfoldable pub report :
    Reporter
    → Stamp
    → Kind
    → String
    → String
    → String
    → Severity
    → String
    → List Reason
    → List (String × Meta)
    → Reporter
report r stamp kind request_id agent_id provider severity reason reason_codes metadata = record r {
  incidents =
      r.incidents
      ++ record {
        stamp = stamp;
        kind = kind;
        node_id = r.node_id;
        request_id = request_id;
        agent_id = agent_id;
        provider = provider;
        severity = severity;
        reason = reason;
        reason_codes = reason_codes;
        metadata = metadata;
      }
        ∷ [];
}
