-- ===== src/Proxy/Entry.antt =====
-- services/signalmesh-node/internal/proxy/handler.go: `HandleChat` from the method of the HTTP
-- request to the response.
use signalmesh.Base.{ℕ, not, Option, none, some, List, [], ◌∷◌, String, str_eq, if◌then◌else◌}
use Prim.Native.String.{◌++◌ as ◌<>◌}
use signalmesh.Base.Int.{pos, add_ℤ}
use signalmesh.Base.Clock.{Time}
use signalmesh.Base.Float.{Float64}
use signalmesh.Providers.{ModelRequest}
use signalmesh.Policy.{from_request, deadline}
use signalmesh.LoopDetector.{fingerprint}
use signalmesh.Admission.{Class, classify}
use signalmesh.Validator.{Decoder}
use signalmesh.Reasons.{Reason}
use signalmesh.Proxy.State.{Node, Round, Context}
use signalmesh.Proxy.Chat.{Closing, handle_chat}
use signalmesh.Proxy.Response.{Headers, no_headers, Formats, Response, write_json_error, respond}

-- What the outside gives to the handler: package fmt, SHA-256, the JSON of contents.
pub record Packages (F : Type 0) : Type 0 where
  pub formats : Formats F
  pub digest : List ℕ → String
  pub decode : Decoder F

-- A request over HTTP; a body that is not JSON is `none`. Two readings of the clock.
pub record Incoming (F : Type 0) : Type 0 where
  pub method : String
  pub body : Option (ModelRequest F)
  pub named_at : Time
  pub started_at : Time

-- `string(trafficClass)`.
abbrev pub class_text : Class → String
class_text Class.critical = "CRITICAL"
class_text Class.normal = "NORMAL"
class_text Class.background = "BACKGROUND"

module _ {F : Type 0} ⦃fl : Float64 F⦄ (env : Packages F) where
  -- A request without an id gets one from the clock.
  unfoldable pub identified : ModelRequest F → Time → ModelRequest F
  identified req now = record req {
    request_id =
        if str_eq req.request_id "" then "req-" <> env.formats.decimal now else req.request_id;
  }

  unfoldable pub context_of : ModelRequest F → Time → Context F
  context_of req now =
      let pol = from_request req in
      record {
        req = req;
        pol = pol;
        fingerprint = fingerprint env.digest req;
        deadline = add_ℤ (pos now) (deadline pol);
        decode = env.decode;
      }

  unfoldable pub first_headers : Context F → Headers
  first_headers c = record no_headers {
    agent = c.req.agent_id;
    task = c.req.task_type;
    risk = c.req.risk_level;
    traffic_class = class_text (classify c.req c.pol);
  }

  -- Behind the checks of the method and the body.
  unfoldable pub handle_body :
      ModelRequest F
      → Time
      → (ℕ → Round F)
      → Closing
      → Option (List Reason)
      → Node F
      → Node F × Option (Response F)
  unfolding context_of first_headers respond
  handle_body req now rounds z refusal n =
      let c = context_of req now in
      let x = handle_chat c rounds z refusal n in (x.0, respond env.formats c (first_headers c) x)

  abbrev pub handle_decoded :
      Option (ModelRequest F)
      → Incoming F
      → (ℕ → Round F)
      → Closing
      → Option (List Reason)
      → Node F
      → Node F × Option (Response F)
  handle_decoded none call rounds z refusal n =
      (n, some (write_json_error 400 ("INVALID_REQUEST_JSON" ∷ []) no_headers))
  handle_decoded (some req) call rounds z refusal n =
      handle_body (identified req call.named_at) call.started_at rounds z refusal n

  -- `HandleChat`, given the reasons if admission refuses.
  unfoldable pub handle_request :
      Incoming F
      → (ℕ → Round F)
      → Closing
      → Option (List Reason)
      → Node F
      → Node F × Option (Response F)
  unfolding handle_body write_json_error identified
  handle_request call rounds z refusal n =
      if not (str_eq call.method "POST")
      then (n, some (write_json_error 405 ("METHOD_NOT_ALLOWED" ∷ []) no_headers))
      else handle_decoded call.body call rounds z refusal n
