-- ===== src/Router/Best.antt =====
-- The loop of `Select`: the best index and score so far.
use signalmesh.Base.{
  ℕ, zero, suc, ◌+◌, ◌≡◌, refl, sym, ◌∙◌, inl, inr, true, false, none, some, List, [], ◌∷◌, ◌++◌,
  map, arith, length, length-append, get_elem?, All, All-append, Bool-cases, if◌then◌else◌,
}
use mathlib.Core.List.{append_assoc, append-nil}
use signalmesh.Base.Float.{Float64, FloatOrder, lit, flt, fneg}
use signalmesh.Policy.{Policy}
use signalmesh.Router.{
  ProviderEntry, ProviderEvaluation, Sources, Best, evaluate, better, select_loop,
}

module _ {F : Type 0} ⦃fl : Float64 F⦄ where
  -- The score that a provider must beat.
  abbrev pub floor : F
  floor = fneg (lit 1000000000 0)

  abbrev pub NotAbove : F → ProviderEvaluation F → Type 0
  NotAbove x w = w.allowed ≡ true → flt x w.score ≡ false

  -- The best index and score after the rounds that gave `evals`.
  pub record IsBest (b : Best F) (evals : List (ProviderEvaluation F)) : Type 0 where
    pub none_above : All (NotAbove b.1) evals
    pub from_floor : b.0 ≡ none → b.1 ≡ floor
    pub at :
        (i : ℕ)
        → b.0 ≡ some i
        → (v : ProviderEvaluation F) × (get_elem? evals i ≡ some v)
          × (v.allowed ≡ true)
          × (v.score ≡ b.1)
          × (flt floor b.1 ≡ true)

  All-NotAbove :
      (o : FloatOrder F) (x y : F) (evals : List (ProviderEvaluation F))
      → flt x y ≡ true
      → All (NotAbove x) evals
      → All (NotAbove y) evals
  All-NotAbove o x y [] l h = tt
  All-NotAbove o x y (w ∷ ws) l h =
      ((λ a. ground (arith, h.0 a, o.lt_trans x y w.score l)), All-NotAbove o x y ws l h.1)

  get_elem?-append :
      (xs ys : List (ProviderEvaluation F)) (i : ℕ) (v : ProviderEvaluation F)
      → get_elem? xs i ≡ some v
      → get_elem? (xs ++ ys) i ≡ some v
  get_elem?-append [] ys i v h = cc
  get_elem?-append (x ∷ xs) ys zero v h = h
  get_elem?-append (x ∷ xs) ys (suc i) v h = get_elem?-append xs ys i v h

  get_elem?-last :
      (xs : List (ProviderEvaluation F)) (v : ProviderEvaluation F)
      → get_elem? (xs ++ v ∷ []) (length xs) ≡ some v
  get_elem?-last [] v = refl
  get_elem?-last (x ∷ xs) v = get_elem?-last xs v

  above_floor :
      (o : FloatOrder F) (b : Best F) (evals : List (ProviderEvaluation F)) (x : F)
      → IsBest b evals
      → flt b.1 x ≡ true
      → flt floor x ≡ true
  above_floor o (none, y) evals x h l = rw (h.from_floor refl) at l
  above_floor o (some i, y) evals x h l = let (v, g, a, e, f) = h.at i refl in o.lt_trans _ _ _ f l

  taken-IsBest :
      (o : FloatOrder F) (b : Best F) (evals : List (ProviderEvaluation F))
      (v : ProviderEvaluation F)
      → IsBest b evals
      → v.allowed ≡ true
      → flt b.1 v.score ≡ true
      → IsBest (some (length evals), v.score) (evals ++ v ∷ [])
  taken-IsBest o b evals v h a l = record {
    none_above =
        All-append (NotAbove v.score) evals (v ∷ [])
          (All-NotAbove o b.1 v.score evals l h.none_above) ((λ _. o.lt_irrefl v.score), tt);
    from_floor = λ e. cc;
    at = λ i e. (
      v,
      (let e' : length evals ≡ i = cc in rw (← e') (get_elem?-last evals v)),
      a,
      refl,
      above_floor o b evals v.score h l,
    );
  }

  kept-IsBest :
      (b : Best F) (evals : List (ProviderEvaluation F)) (v : ProviderEvaluation F)
      → IsBest b evals
      → NotAbove b.1 v
      → IsBest b (evals ++ v ∷ [])
  kept-IsBest b evals v h n = record {
    none_above = All-append (NotAbove b.1) evals (v ∷ []) h.none_above (n, tt);
    from_floor = h.from_floor;
    at = λ i e.
        let (w, g, a, s, f) = h.at i e in (w, get_elem?-append evals (v ∷ []) i w g, a, s, f);
  }

  -- One round keeps the invariant.
  round-IsBest :
      (o : FloatOrder F) (b : Best F) (evals : List (ProviderEvaluation F))
      (v : ProviderEvaluation F)
      → IsBest b evals
      → IsBest (if better v b then (some (length evals), v.score) else b) (evals ++ v ∷ [])
  round-IsBest o b evals v h = elim (Bool-cases (better v b)) [
    | inl more ↦ rw more (taken-IsBest o b evals v h (ground arith) (ground arith))
    | inr less ↦ rw less (kept-IsBest b evals v h (λ a. ground arith))
  ]

  module _ (s : Sources F) (pol : Policy F) (remaining : F) where
    abbrev pub evaluations : List (ProviderEntry F) → List (ProviderEvaluation F)
    evaluations = map (evaluate s pol remaining)

    pub loop-IsBest :
        (o : FloatOrder F) (es : List (ProviderEntry F)) (i : ℕ) (b : Best F)
        (evals : List (ProviderEvaluation F))
        → i ≡ length evals
        → IsBest b evals
        → let (b', evals') = select_loop s pol remaining es i b evals in
          IsBest b' evals' × (evals' ≡ evals ++ evaluations es)
    unfolding select_loop
    loop-IsBest o [] i b evals e h = (h, sym (append-nil evals))
    loop-IsBest o (x ∷ es) i b evals e h =
        let v = evaluate s pol remaining x in
        let rest =
          loop-IsBest o es (i + 1) (if better v b then (some i, v.score) else b) (evals ++ v ∷ [])
            (rw (length-append, e) refl) (rw e (round-IsBest o b evals v h)) in
        (rest.0, rest.1 ∙ append_assoc evals (v ∷ []) (evaluations es))

    pub start-IsBest : IsBest (none, floor) []
    start-IsBest = record { none_above = tt; from_floor = λ _. refl; at = λ i e. cc }
