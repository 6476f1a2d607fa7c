-- ===== src/Chaos/Load.antt =====
-- services/signalmesh-node/internal/chaos/engine.go: `startLoadLocked` and `fireOne`, the workers of a
-- load scenario. Each worker reads the clock and the context of its own; the HTTP exchange has no
-- effect on it.
use signalmesh.Base.{ℕ, ◌*◌, Bool, true, false, none, List, [], ◌∷◌, str_eq, if◌then◌else◌}
use signalmesh.Base.Int.{ℤ, pos, add_ℤ, ltb_ℤ, mul_pos, wrap64}
use signalmesh.Base.Clock.{Time, millisecond, second}
use signalmesh.Base.Float.{Float64, lit}
use signalmesh.Providers.{ModelRequest}
use signalmesh.Chaos.{LoadSpec}

-- The request that `fireOne` sends, as the handler decodes it: fields that the text leaves out have
-- their zero values. The texts of the scenarios need no escapes.
unfoldable pub request_of : {F : Type 0} ⦃fl : Float64 F⦄ → LoadSpec → ModelRequest F
request_of spec = record {
  request_id = "";
  messages =
      record {
        role = "user";
        content = if str_eq spec.fixed_prompt "" then "chaos load" else spec.fixed_prompt;
      }
      ∷ [];
  model = "mock-model";
  temperature = lit 0 0;
  max_tokens = pos 0;
  policy = none;
  task_type = spec.task_type;
  risk_level = spec.risk;
  agent_id = spec.agent;
  priority = spec.priority;
}

-- The pause between two requests of a worker.
abbrev pub pause : LoadSpec → ℕ
pause spec = if spec.serial then 400 * millisecond else 25 * millisecond

-- One round of a worker: the clock, and whether the context is done before its request, or before
-- its pause is over.
pub record Tick : Type 0 where
  pub now : Time
  pub done_before : Bool
  pub done_in_pause : Bool

-- `time.Now().Add(time.Duration(durationSeconds) * time.Second)`.
abbrev pub load_deadline : Time → ℤ → ℤ
load_deadline now seconds = add_ℤ (pos now) (wrap64 (mul_pos seconds second))

-- The instants at which a worker sends its requests, and whether it has ended.
unfoldable pub worker : ℤ → List Tick → List Time × Bool
worker deadline [] = ([], false)
worker deadline (t ∷ ts) =
    let rest = worker deadline ts in
    if ltb_ℤ (pos t.now) deadline
    then (if t.done_before
        then ([], true)
        else if t.done_in_pause
        then (t.now ∷ [], true)
        else (t.now ∷ rest.0, rest.1))
    else ([], true)
