-- ===== src/Console/Refusals.antt =====
-- What a refused debug request leaves behind.
use mathlib.Core.Option.{map as option_map}
use mathlib.Core.List.{reverse}
use signalmesh.Base.{
  ℕ, ◌≡◌, ◌⊎◌, refl, Option, none, some, List, String, Bool-cases, str_eq, inl, inr, take,
}
use signalmesh.Base.Int.{pos}
use signalmesh.Base.Float.{Float64}
use signalmesh.Budget.{Manager}
use signalmesh.Chaos.{ScenarioRequest, Lab, Stamp, effect, activate, or_unknown, run}
use signalmesh.Cluster.Commands.{ChaosCommand}
use signalmesh.Chaos.Restoring.{stopped}
use signalmesh.Console.{
  Injection, ok, checked, set_budget, inject, status_for, start_scenario, last_items,
}
use signalmesh.DecisionLog.{recent}
use signalmesh.DecisionLog.Recent.{recent-take}

-- The newest n items, newest first, and all of them if there are fewer.
pub last_items-take :
    {A : Type 0} (items : List A) (n : ℕ) → last_items items (pos n) ≡ take n (reverse items)
unfolding last_items recent
last_items-take items n = recent-take (record { items = items; limit = pos 1 }) n

-- A body is accepted, or the state is left as the action leaves it.
left_or_ok :
    {S B : Type 0} (Left : S → Type 0) (s : S) (method : String) (body : Option B) (act : B → S × ℕ)
    → Left s
    → ((b : B) → ((act b).1 ≡ ok) ⊎ Left (act b).0)
    → ((checked s method body act).1 ≡ ok) ⊎ Left (checked s method body act).0
left_or_ok Left s method none act same acts = inr same
left_or_ok Left s method (some b) act same acts = elim (Bool-cases (str_eq method "POST")) [
  | inl post ↦ rw post (acts b)
  | inr other ↦ rw other (inr same)
]

module _ {F : Type 0} ⦃fl : Float64 F⦄ where
  -- The lab as it was, or with the timer and the load of the active scenario stopped.
  abbrev pub IsLeft : Lab F → Lab F → Type 0
  IsLeft l l' = (l' ≡ l) ⊎ (l' ≡ stopped l)

  started_or_left :
      (l : Lab F) (req : ScenarioRequest) (t : Stamp) (e : Option (Lab F × ChaosCommand F))
      → let r = status_for (or_unknown l (option_map (activate req t) e)) in (r.1 ≡ ok) ⊎ (r.0 ≡ l)
  started_or_left l req t none = inr refl
  started_or_left l req t (some (l', cmd)) = inl refl

  run_or_left :
      (l : Lab F) (req : ScenarioRequest) (t : Stamp)
      → let r = status_for (run l req t) in (r.1 ≡ ok) ⊎ (r.0 ≡ stopped l)
  unfolding run
  run_or_left l req t = elim (Bool-cases (str_eq req.scenario "restore")) [
    | inl back ↦ rw back (inl refl)
    | inr other ↦ rw other (started_or_left (stopped l) req t (effect (stopped l) req.scenario t))
  ]

  -- Answers of the three handlers: 200, or nothing is changed but what `IsLeft` says.
  pub record IsUnharmed (m : Manager F × ℕ) (i s : Lab F × ℕ) (m' : Manager F) (l : Lab F)
      : Type 0 where
    pub budgets : (m.1 ≡ ok) ⊎ (m.0 ≡ m')
    pub injections : (i.1 ≡ ok) ⊎ (i.0 ≡ l)
    pub scenarios : (s.1 ≡ ok) ⊎ IsLeft l s.0

  -- A debug request that is not answered with 200 changes no budget and injects no failure; that of a
  -- scenario changes at most the timer and the load of the active one, which it stops.
  pub refusals-IsUnharmed :
      (m : Manager F) (l : Lab F) (method : String) (t : Stamp) (limit : Option (String × F))
      (injection : Option (Injection F)) (scenario : Option ScenarioRequest)
      → IsUnharmed
          (set_budget m method limit)
          (inject l method injection t)
          (start_scenario l method scenario t)
          m
          l
  unfolding set_budget inject start_scenario
  refusals-IsUnharmed m l method t limit injection scenario = record {
    budgets =
        left_or_ok (λ x. x ≡ m) m method limit _ refl
          (λ cmd. elim (Bool-cases (str_eq cmd.0 "")) [
            | inl nobody ↦ rw nobody (inr refl)
            | inr named ↦ rw named (inl refl)
          ]);
    injections = left_or_ok (λ x. x ≡ l) l method injection _ refl (λ cmd. inl refl);
    scenarios =
        left_or_ok (IsLeft l) l method scenario _ (inl refl)
          (λ req. elim (run_or_left l req t) [ inl done ↦ inl done | inr left ↦ inr (inr left) ]);
  }
