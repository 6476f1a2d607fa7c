-- ===== src/Router/Choice.antt =====
-- The provider that `Select` returns.
use signalmesh.Base.{
  ℕ, zero, suc, ◌≡◌, refl, subst, sym, ap, ◌∙◌, true, none, some, List, [], ◌∷◌, map, get_elem?,
  All,
}
use signalmesh.Base.Float.{Float64, FloatOrder, flt}
use signalmesh.Policy.{Policy}
use signalmesh.Reasons.{Reason}
use signalmesh.Router.Best.{IsBest, NotAbove, floor, evaluations, loop-IsBest, start-IsBest}
use signalmesh.Router.{
  ProviderEntry, ProviderEvaluation, Decision, Sources, Selection, Best, evaluate, conclude, select,
}

abbrev refusal_reason : {F : Type 0} → List (ProviderEntry F) → Reason
refusal_reason [] = Reason.no_providers_registered
refusal_reason (e ∷ es) = Reason.no_provider_available

get_elem?-map {ℓ κ} :
    {A : Type ℓ} {B : Type κ} (f : A → B) (xs : List A) (i : ℕ) {v : B}
    → get_elem? (map f xs) i ≡ some v
    → (x : A) × (get_elem? xs i ≡ some x) × (v ≡ f x)
get_elem?-map f [] i h = cc
get_elem?-map f (x ∷ xs) zero h = (x, refl, cc)
get_elem?-map f (x ∷ xs) (suc i) h = get_elem?-map f xs i h

module _ {F : Type 0} ⦃fl : Float64 F⦄ (s : Sources F) (pol : Policy F) (remaining : F) where
  -- A choice, and how it is explained.
  pub record IsChosen (entries : List (ProviderEntry F)) (e : ProviderEntry F) (d : Decision F)
      : Type 0 where
    pub index : ℕ
    pub stored : get_elem? entries index ≡ some e
    pub allowed : (evaluate s pol remaining e).allowed ≡ true
    pub above_floor : flt floor (evaluate s pol remaining e).score ≡ true
    pub none_above :
        All (NotAbove (evaluate s pol remaining e).score) (evaluations s pol remaining entries)
    pub explained : d ≡ record {
      selected_provider = e.provider;
      fallback_used = e.is_fallback;
      reason_codes = Reason.routing_score_selected ∷ (evaluate s pol remaining e).reason_codes;
      evaluations = evaluations s pol remaining entries;
    }

  abbrev pub Outcome : List (ProviderEntry F) → Selection F → Type 0
  Outcome entries (Selection.selected e d) = IsChosen entries e d
  Outcome entries (Selection.failed d) =
      All (NotAbove floor) (evaluations s pol remaining entries)
      × (d.evaluations ≡ evaluations s pol remaining entries)
      × (d.reason_codes ≡ refusal_reason entries ∷ [])
  Outcome entries Selection.crashed = ⊥

  conclude-Outcome :
      (x : ProviderEntry F) (xs : List (ProviderEntry F)) (b : Best F)
      → IsBest b (evaluations s pol remaining (x ∷ xs))
      → Outcome (x ∷ xs) (conclude (x ∷ xs) (b, evaluations s pol remaining (x ∷ xs)))
  unfolding conclude
  conclude-Outcome x xs (none, score) h = (
    subst (λ y. All (NotAbove y) (evaluations s pol remaining (x ∷ xs))) (h.from_floor refl)
        h.none_above,
    refl,
    refl,
  )
  conclude-Outcome x xs (some i, score) h =
      let (v, g, a, e, f) = h.at i refl in
      let (y, p, q) = get_elem?-map (evaluate s pol remaining) (x ∷ xs) i g in
      let explanation : ProviderEvaluation F → Decision F = λ w. record {
        selected_provider = y.provider;
        fallback_used = y.is_fallback;
        reason_codes = Reason.routing_score_selected ∷ w.reason_codes;
        evaluations = evaluations s pol remaining (x ∷ xs);
      } in
      rw (g, p)
        (record {
          index = i;
          stored = p;
          allowed = rw (← q) a;
          above_floor = rw (← q, e) f;
          none_above =
              subst (λ z. All (NotAbove z) (evaluations s pol remaining (x ∷ xs)))
                (sym e ∙ ap (λ w. w.score) q) h.none_above;
          explained = ap explanation q;
        })

  conclude_any :
      (x : ProviderEntry F) (xs : List (ProviderEntry F))
      (r : (Best F) × List (ProviderEvaluation F))
      → r.1 ≡ evaluations s pol remaining (x ∷ xs)
      → IsBest r.0 r.1
      → Outcome (x ∷ xs) (conclude (x ∷ xs) r)
  conclude_any x xs (b, evals) e =
      subst (λ t. IsBest b t → Outcome (x ∷ xs) (conclude (x ∷ xs) (b, t))) (sym e)
        (conclude-Outcome x xs b)

  -- `Select` never runs out of range. Either it returns an entry of the list that is allowed, scores
  -- above -1e9, and is beaten by no other allowed entry's score, with the decision that names it
  -- and lists the evaluation of every entry; or it fails, every allowed entry scores at most -1e9,
  -- and the reason says whether there were any entries at all.
  pub select-Outcome :
      FloatOrder F
      → (entries : List (ProviderEntry F)) → Outcome entries (select s pol remaining entries)
  unfolding select
  select-Outcome o [] = (tt, refl, refl)
  select-Outcome o (x ∷ xs) =
      let (h, e) =
        loop-IsBest s pol remaining o (x ∷ xs) 0 (none, floor) [] refl
          (start-IsBest s pol remaining) in
      conclude_any x xs _ e h
