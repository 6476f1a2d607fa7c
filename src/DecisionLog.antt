-- ===== src/DecisionLog.antt =====
-- services/signalmesh-node/internal/observability/decisionlog.go: the bounded log of decisions,
-- over any type of records. The lock makes each method one step.
pub mod Recent
use signalmesh.Base.{
  ℕ, zero, suc, ◌+◌, ◌-◌, ◌≤◌, Bool, true, false, ◌||◌, Option, none, some, List, [], ◌∷◌, ◌++◌,
  length, drop, get_elem?, ltb, if◌then◌else◌,
}
use signalmesh.Base.Int.{ℤ, pos, leb_ℤ, ltb_ℤ, pos_part}

pub record DecisionLog {ℓ} (A : Type ℓ) : Type ℓ where
  pub items : List A
  pub limit : ℤ

module _ {ℓ} {A : Type ℓ} where
  unfoldable pub new : ℤ → DecisionLog A
  new limit = record { items = []; limit = if leb_ℤ limit (pos 0) then pos 100 else limit }

  -- `items[len(items)-limit:]`, where the limit is less than the length.
  unfoldable pub add : DecisionLog A → A → DecisionLog A
  add d r =
      let items = d.items ++ r ∷ [] in
      if ltb_ℤ d.limit (pos (length items))
      then record d { items = drop (length items - pos_part d.limit) items }
      else record d { items = items }

  -- The loop `for i := len - 1; i >= start; i--`, with `n` rounds left and `i + 1` for the index.
  unfoldable pub collect : List A → ℕ → ℕ → List A → List A
  collect items zero i out = out
  collect items (suc n) i out =
      collect items n (i - 1)
        (elim (get_elem? items (i - 1)) [ none ↦ out | some x ↦ out ++ x ∷ [] ])

  abbrev pub is_empty : List A → Bool
  is_empty [] = true
  is_empty (x ∷ xs) = false

  unfoldable pub recent : DecisionLog A → ℤ → List A
  unfolding collect
  recent d n =
      if leb_ℤ n (pos 0) || is_empty d.items
      then []
      else (let start = length d.items - pos_part n in
          collect d.items (length d.items - start) (length d.items) [])
