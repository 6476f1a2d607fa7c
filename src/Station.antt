-- ===== src/Station.antt =====
-- The chat endpoint as cmd/signalmesh/main.go wires it: `HandleChat` behind the middleware
-- (services/signalmesh-node/internal/observability/middleware.go), one request after the other.
pub mod Shown
pub mod Counts
pub mod Startup
pub mod History
pub mod Repeats
use signalmesh.Base.{ℕ, Option, none, some, List, [], ◌∷◌, String}
use signalmesh.Base.Clock.{Time}
use signalmesh.Base.Float.{Float64}
use signalmesh.Reasons.{Reason}
use signalmesh.DecisionLog.{DecisionLog}
use signalmesh.Metrics.{Metrics, WriterCall, Served, DecisionRecord, wrap}
use signalmesh.Proxy.State.{Node, Round}
use signalmesh.Proxy.Chat.{Closing}
use signalmesh.Proxy.Response.{Response}
use signalmesh.Proxy.Entry.{Packages, Incoming, handle_request}

pub record Station (F : Type 0) : Type 0 where
  pub node : Node F
  pub metrics : Metrics
  pub decisions : DecisionLog DecisionRecord

-- A request, and what the outside does while it is served. The middleware reads the clock before,
-- after, and for its record.
pub record Exchange (F : Type 0) : Type 0 where
  pub incoming : Incoming F
  pub rounds : ℕ → Round F
  pub closing : Closing
  pub refusal : Option (List Reason)
  pub start : Time
  pub ended : Time
  pub logged : Time

-- What the middleware sees of a response: the status and the body are written, then it reads the
-- headers.
abbrev pub served_of : {F : Type 0} → Response F → Time → Time → Time → Served
served_of r start ended logged = record {
  path = "/v1/chat/completions";
  calls = WriterCall.write_header r.status ∷ WriterCall.write ∷ [];
  request_id = r.headers.request_id;
  agent = r.headers.agent;
  task = r.headers.task;
  risk = r.headers.risk;
  traffic_class = r.headers.traffic_class;
  provider = r.headers.provider;
  phase = r.headers.phase;
  fallback = r.headers.fallback;
  escalation = r.headers.escalation;
  reasons = r.headers.reasons;
  start = start;
  ended = ended;
  logged = logged;
}

module _ {F : Type 0} ⦃fl : Float64 F⦄ (env : Packages F) (text : ℕ → String) where
  -- A panic of the handler leaves the middleware before it counts.
  abbrev pub observe : Exchange F → Station F → Node F × Option (Response F) → Station F
  observe x s (n, none) = record s { node = n }
  observe x s (n, some r) =
      let books = wrap text (s.metrics, s.decisions) (served_of r x.start x.ended x.logged) in
      record { node = n; metrics = books.0; decisions = books.1 }

  unfoldable pub exchange : Station F → Exchange F → Station F
  unfolding handle_request wrap
  exchange s x = observe x s (handle_request env x.incoming x.rounds x.closing x.refusal s.node)

  unfoldable pub exchanges : Station F → List (Exchange F) → Station F
  unfolding exchange
  exchanges s [] = s
  exchanges s (x ∷ xs) = exchanges (exchange s x) xs
