-- ===== src/Budget.antt =====
-- services/signalmesh-node/internal/budget/budget.go: what the node has spent, and for which agent.
-- The lock makes each method one step.
pub mod Ledger
use signalmesh.Base.{Bool, true, false, Option, none, some, List, [], ◌∷◌, String, if◌then◌else◌}
use signalmesh.Base.Maps.{Map, lookup, insert}
use signalmesh.Base.Float.{Float64, lit, flt, fle, fadd, fsub, max_float}

pub record Status (F : Type 0) : Type 0 where
  pub global_limit : F
  pub global_spent : F
  pub global_remaining : F
  pub agent_limit : F
  pub agent_spent : F
  pub agent_remaining : F

pub record Manager (F : Type 0) : Type 0 where
  pub global_limit : F
  pub global_spent : F
  pub default_agent_limit : F
  pub agent_limits : Map F
  pub agent_spent : Map F

module _ {F : Type 0} ⦃fl : Float64 F⦄ where
  unfoldable pub new_manager : F → F → Manager F
  new_manager global_limit default_agent_limit = record {
    global_limit = global_limit;
    global_spent = lit 0 0;
    default_agent_limit = default_agent_limit;
    agent_limits = [];
    agent_spent = [];
  }

  effective_limit : F → F
  effective_limit limit = if fle limit (lit 0 0) then max_float else limit

  unfoldable pub min_float : F → F → F
  min_float a b = if flt a b then a else b

  unfoldable pub set_agent_limit : Manager F → String → F → Manager F
  set_agent_limit m agent limit = record m { agent_limits = insert agent limit m.agent_limits }

  -- A map read with a default: Go's zero value is `lit 0 0`.
  abbrev pub read : String → Map F → F → F
  read k m d = elim (lookup k m) [ none ↦ d | some v ↦ v ]

  unfoldable pub remaining : Manager F → String → F
  unfolding effective_limit min_float
  remaining m agent =
      let global_remaining = fsub (effective_limit m.global_limit) m.global_spent in
      let agent_limit = read agent m.agent_limits m.default_agent_limit in
      let agent_remaining =
        fsub (effective_limit agent_limit) (read agent m.agent_spent (lit 0 0)) in
      min_float global_remaining agent_remaining

  -- `Record`.
  unfoldable pub record_cost : Manager F → String → F → Manager F
  record_cost m agent cost = if flt cost (lit 0 0) then m else record m {
    global_spent = fadd m.global_spent cost;
    agent_spent = insert agent (fadd (read agent m.agent_spent (lit 0 0)) cost) m.agent_spent;
  }

  unfoldable pub status : Manager F → String → Status F
  unfolding effective_limit
  status m agent =
      let global_limit = effective_limit m.global_limit in
      let agent_limit : F = elim (lookup agent m.agent_limits) [
        | none ↦ effective_limit m.default_agent_limit
        | some limit ↦ effective_limit limit
      ] in
      let agent_spent = read agent m.agent_spent (lit 0 0) in
      record {
        global_limit = global_limit;
        global_spent = m.global_spent;
        global_remaining = fsub global_limit m.global_spent;
        agent_limit = agent_limit;
        agent_spent = agent_spent;
        agent_remaining = fsub agent_limit agent_spent;
      }
