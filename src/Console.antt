-- ===== src/Console.antt =====
-- services/signalmesh-node/cmd/signalmesh/main.go: the debug handlers that change a component, what
-- the dashboard shows of lists, and the reading of the environment. A body that is not JSON is
-- `none`; the handlers that only encode what a component reports are left out.
pub mod Refusals
use mathlib.Core.Option.{map as option_map}
use signalmesh.Base.{
  ℕ, ◌+◌, ◌-◌, Bool, true, false, not, ◌||◌, Option, none, some, List, [], ◌∷◌, String, length,
  str_eq, if◌then◌else◌,
}
use signalmesh.Base.Int.{ℤ, pos, leb_ℤ, pos_part}
use signalmesh.Base.Float.{Float64}
use signalmesh.Budget.{Manager, set_agent_limit}
use signalmesh.Chaos.{ScenarioRequest, ScenarioResult, Lab, Stamp, command, publish, run}
use signalmesh.DecisionLog.{collect, is_empty}

-- The status of an answer.
abbrev pub ok : ℕ
ok = 200

abbrev pub bad_request : ℕ
bad_request = 400

abbrev pub method_not_allowed : ℕ
method_not_allowed = 405

-- The command of the body of `/debug/chaos/inject`.
pub record Injection (F : Type 0) : Type 0 where
  pub latency_ms : ℤ
  pub error_rate : F
  pub contract_fail : Bool

-- The checks that the handlers share, the method and the body, before they act on a body.
abbrev pub checked : {S B : Type 0} → S → String → Option B → (B → S × ℕ) → S × ℕ
checked s method none act = (s, if str_eq method "POST" then bad_request else method_not_allowed)
checked s method (some body) act =
    if str_eq method "POST" then act body else (s, method_not_allowed)

-- `/debug/budget/set`: the agent and its limit.
unfoldable pub set_budget :
    {F : Type 0} ⦃fl : Float64 F⦄ → Manager F → String → Option (String × F) → Manager F × ℕ
unfolding set_agent_limit
set_budget m method body =
    checked m method body
      (λ cmd. if str_eq cmd.0 "" then (m, bad_request) else (set_agent_limit m cmd.0 cmd.1, ok))

module _ {F : Type 0} ⦃fl : Float64 F⦄ where
  -- `/debug/chaos/inject`.
  unfoldable pub inject : Lab F → String → Option (Injection F) → Stamp → Lab F × ℕ
  unfolding publish
  inject l method body t = checked l method body (λ cmd. (
    publish l
        (record (command cmd.latency_ms cmd.error_rate cmd.contract_fail) {
          provider = l.mock.name;
        })
        t,
    ok,
  ))

  abbrev pub status_for : Lab F × Option (ScenarioResult F) → Lab F × ℕ
  status_for (l, none) = (l, bad_request)
  status_for (l, some result) = (l, ok)

  -- `/debug/chaos/scenario`.
  unfoldable pub start_scenario : Lab F → String → Option ScenarioRequest → Stamp → Lab F × ℕ
  unfolding run
  start_scenario l method body t = checked l method body (λ req. status_for (run l req t))

-- `lastEscalations` and `lastIncidents`: the same loop as that of the decision log.
unfoldable pub last_items : {A : Type 0} → List A → ℤ → List A
unfolding collect
last_items items n =
    if leb_ℤ n (pos 0) || is_empty items
    then []
    else (let start = length items - pos_part n in
        collect items (length items - start) (length items) [])

-- A browser's question before a request is answered by `cors` alone; others reach the handler.
unfoldable pub cors : {R : Type 0} → String → R → R → R
cors method no_content answer = if str_eq method "OPTIONS" then no_content else answer

abbrev pub parsed_or : {A : Type 0} → A → Option A → A
parsed_or fallback none = fallback
parsed_or fallback (some a) = a

-- `envInt` and `envFloat`: the fallback stands in for an empty text and for one that does not parse.
unfoldable pub env_number : {A : Type 0} → (String → Option A) → String → A → A
env_number parse v fallback = if str_eq v "" then fallback else parsed_or fallback (parse v)

-- `env`.
unfoldable pub env_text : String → String → String
env_text v fallback = if str_eq v "" then fallback else v
