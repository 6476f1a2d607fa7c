-- ===== src/Budget/Ledger.antt =====
-- The budget's balances against the list of charges that led to them.
use signalmesh.Base.{
  ◌≡◌, refl, ap, ◌∙◌, false, List, [], ◌∷◌, String, arith, str_eq, eq_iff, if◌then◌else◌,
}
use signalmesh.Base.Maps.{lookup, lookup-insert}
use signalmesh.Base.Float.{Float64, lit, flt, fle, fadd}
use signalmesh.Budget.{
  Manager, new_manager, set_agent_limit, read, remaining, record_cost, status, min_float,
}

module _ {F : Type 0} ⦃fl : Float64 F⦄ where
  -- Charges: each has its agent and its cost.
  pub charge_all : Manager F → List (String × F) → Manager F
  charge_all m [] = m
  charge_all m (c ∷ cs) = charge_all (record_cost m c.0 c.1) cs

  -- The sum, in the order of the charges and from a start, of those that are not negative.
  abbrev pub total_from : F → List (String × F) → F
  total_from x [] = x
  total_from x (c ∷ cs) = total_from (if flt c.1 (lit 0 0) then x else fadd x c.1) cs

  -- The same over one agent's charges.
  abbrev pub agent_total_from : String → F → List (String × F) → F
  agent_total_from agent x [] = x
  agent_total_from agent x (c ∷ cs) =
      agent_total_from agent
        (if flt c.1 (lit 0 0) then x else if str_eq c.0 agent then fadd x c.1 else x) cs

  spent-record_cost :
      (m : Manager F) (agent j : String) (cost : F)
      → read j (record_cost m agent cost).agent_spent (lit 0 0) ≡ (
          if flt cost (lit 0 0)
          then read j m.agent_spent (lit 0 0)
          else if str_eq agent j
          then fadd (read j m.agent_spent (lit 0 0)) cost
          else read j m.agent_spent (lit 0 0))
  unfolding record_cost
  spent-record_cost m agent j cost = ground (
    arith,
    eq_iff agent j,
    lookup-insert agent j (fadd (read agent m.agent_spent (lit 0 0)) cost) m.agent_spent,
  )

  global-record_cost :
      (m : Manager F) (agent : String) (cost : F)
      → (record_cost m agent cost).global_spent
        ≡ (if flt cost (lit 0 0) then m.global_spent else fadd m.global_spent cost)
  unfolding record_cost
  global-record_cost m agent cost = ground arith

  charges_from :
      (cs : List (String × F)) (m : Manager F) (agent : String)
      → ((charge_all m cs).global_spent ≡ total_from m.global_spent cs)
        × (read agent (charge_all m cs).agent_spent (lit 0 0)
            ≡ agent_total_from agent (read agent m.agent_spent (lit 0 0)) cs)
  unfolding charge_all
  charges_from [] m agent = (refl, refl)
  charges_from (c ∷ cs) m agent =
      let (g, a) = charges_from cs (record_cost m c.0 c.1) agent in
      (
        g ∙ ap (λ x. total_from x cs) (global-record_cost m c.0 c.1),
        a ∙ ap (λ x. agent_total_from agent x cs) (spent-record_cost m c.0 agent c.1),
      )

  new_spent :
      (global_limit agent_limit : F) (agent : String)
      → ((new_manager global_limit agent_limit).global_spent ≡ lit 0 0)
        × (read agent (new_manager global_limit agent_limit).agent_spent (lit 0 0) ≡ lit 0 0)
  unfolding new_manager lookup
  new_spent global_limit agent_limit agent = (refl, refl)

  -- After any charges on a new manager the global balance is the sum of all costs that are not
  -- negative, in their order, and each agent's balance the sum of its own: a negative cost counts
  -- for nothing, and no charge touches another agent's balance.
  pub balances :
      (global_limit agent_limit : F) (cs : List (String × F)) (agent : String)
      → let m = charge_all (new_manager global_limit agent_limit) cs in
        (m.global_spent ≡ total_from (lit 0 0) cs)
        × (read agent m.agent_spent (lit 0 0) ≡ agent_total_from agent (lit 0 0) cs)
  balances global_limit agent_limit cs agent =
      let (g, a) = charges_from cs (new_manager global_limit agent_limit) agent in
      let (g0, a0) = new_spent global_limit agent_limit agent in
      (g ∙ ap (λ x. total_from x cs) g0, a ∙ ap (λ x. agent_total_from agent x cs) a0)

  -- `Remaining` is the smaller of the two remaining amounts that `Status` reports, also for an agent
  -- with a limit of its own, and after `SetAgentLimit` the reported limit of the agent is the new
  -- one where that is positive.
  pub remaining-status :
      (m : Manager F) (agent : String) (limit : F)
      → (remaining m agent
          ≡ min_float (status m agent).global_remaining (status m agent).agent_remaining)
        × (fle limit (lit 0 0) ≡ false
            → (status (set_agent_limit m agent limit) agent).agent_limit ≡ limit)
  unfolding remaining status set_agent_limit
  remaining-status m agent limit = (
    ground arith,
    λ h. ground (arith, eq_iff agent agent, lookup-insert agent agent limit m.agent_limits),
  )
