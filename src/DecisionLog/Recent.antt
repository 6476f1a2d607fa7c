-- ===== src/DecisionLog/Recent.antt =====
-- The log keeps the newest records, and lists them newest first.
use mathlib.Core.List.{reverse, reverse-append, reverse-cons, append_assoc, append-nil}
use native.Mathlib.Decide.{dec_lt}
use native.Mathlib.Nat.{add-zero, zero-add, add-suc, suc-add}
use signalmesh.Base.{
  ℕ, zero, suc, ◌+◌, ◌-◌, ◌≤◌, ◌<◌, ◌≡◌, refl, sym, ap, ◌∙◌, get_elem?, some, List, [], ◌∷◌, ◌++◌,
  arith, length, drop, take, length-append, length-drop,
}
use signalmesh.Base.Int.{pos}
use signalmesh.DecisionLog.{DecisionLog, new, add, recent, collect}

new_lem {ℓ} :
    (A : Type ℓ) (n : ℕ)
    → ((new {A = A} (pos (suc n))).limit ≡ pos (suc n)) × ((new {A = A} (pos (suc n))).items ≡ [])
unfolding new
new_lem A n = (ground arith, refl)

module _ {ℓ} {A : Type ℓ} where
  pub add_all : DecisionLog A → List A → DecisionLog A
  add_all d [] = d
  add_all d (x ∷ xs) = add_all (add d x) xs

  -- The last n elements.
  abbrev pub last_of : ℕ → List A → List A
  last_of n xs = drop (length xs - n) xs

  drop-append : (n : ℕ) (xs ys : List A) → n ≤ length xs → drop n (xs ++ ys) ≡ drop n xs ++ ys
  drop-append zero xs ys h = refl
  drop-append (suc n) [] ys h = absurd (omega arith)
  drop-append (suc n) (x ∷ xs) ys h = drop-append n xs ys (omega arith)

  drop-drop : (m n : ℕ) (xs : List A) → drop m (drop n xs) ≡ drop (n + m) xs
  drop-drop m zero xs = rw zero-add
  drop-drop zero (suc n) [] = rw add-zero
  drop-drop (suc m) (suc n) [] = rw add-suc
  drop-drop m (suc n) (x ∷ xs) = rw suc-add (drop-drop m n xs)

  add_over :
      (d : DecisionLog A) (n : ℕ) (x : A)
      → d.limit ≡ pos n
      → n < length (d.items ++ x ∷ [])
      → (add d x).items ≡ drop (length (d.items ++ x ∷ []) - n) (d.items ++ x ∷ [])
  unfolding add
  add_over d n x l h = ground arith

  add_fits :
      (d : DecisionLog A) (n : ℕ) (x : A)
      → d.limit ≡ pos n
      → length (d.items ++ x ∷ []) ≤ n
      → (add d x).items ≡ d.items ++ x ∷ []
  unfolding add
  add_fits d n x l h = ground arith

  -- One record more, on a log that holds the last n of what it was given.
  add-last_of :
      (d : DecisionLog A) (n : ℕ) (seen : List A) (x : A)
      → d.limit ≡ pos n
      → d.items ≡ last_of n seen
      → (add d x).items ≡ last_of n (seen ++ x ∷ [])
  add-last_of d n seen x l e = elim (dec_lt n (length (d.items ++ x ∷ []))) [
    | yes over ↦
        add_over d n x l over
        ∙ ap (drop (length (d.items ++ x ∷ []) - n)) grown
        ∙ drop-drop (length (d.items ++ x ∷ []) - n) k (seen ++ x ∷ [])
        ∙ ap (λ j. drop j (seen ++ x ∷ [])) (omega (arith, size, length-append {ℓ} seen (x ∷ [])))
    | no fits ↦
        add_fits d n x l (omega arith)
        ∙ grown
        ∙ ap (λ j. drop j (seen ++ x ∷ [])) (omega (arith, size, length-append {ℓ} seen (x ∷ [])))
  ]
    where
      k : ℕ
      k = length seen - n

      grown : d.items ++ x ∷ [] ≡ drop k (seen ++ x ∷ [])
      grown = rw e (sym (drop-append k seen (x ∷ []) (omega arith)))

      size : length (d.items ++ x ∷ []) ≡ suc (length seen) - k
      size = omega (
        arith,
        ap length grown,
        length-drop {ℓ} k (seen ++ x ∷ []),
        length-append {ℓ} seen (x ∷ []),
      )

  limit-add : (d : DecisionLog A) (x : A) → (add d x).limit ≡ d.limit
  unfolding add
  limit-add d x = ground arith

  add_all-last_of :
      (xs : List A) (d : DecisionLog A) (n : ℕ) (seen : List A)
      → d.limit ≡ pos n
      → d.items ≡ last_of n seen
      → (add_all d xs).items ≡ last_of n (seen ++ xs)
  unfolding add_all
  add_all-last_of [] d n seen l e = rw append-nil e
  add_all-last_of (x ∷ xs) d n seen l e =
      add_all-last_of xs (add d x) n (seen ++ x ∷ []) (limit-add d x ∙ l)
        (add-last_of d n seen x l e)
      ∙ ap (last_of n) (append_assoc seen (x ∷ []) xs)

  drop-nil : (n : ℕ) → drop {A = A} n [] ≡ []
  drop-nil zero = refl
  drop-nil (suc n) = refl

  -- A log with a positive limit n holds exactly the last n of the records it was given, in their
  -- order, however many there were.
  pub keeps_last :
      (n : ℕ) (xs : List A) → (add_all (new (pos (suc n))) xs).items ≡ last_of (suc n) xs
  keeps_last n xs =
      add_all-last_of xs (new (pos (suc n))) (suc n) [] (new_lem A n).0
        ((new_lem A n).1 ∙ sym (drop-nil (0 - suc n)))

  take-suc :
      (xs : List A) (i : ℕ)
      → i < length xs
      → (x : A) × (get_elem? xs i ≡ some x) × (take (suc i) xs ≡ take i xs ++ x ∷ [])
  take-suc [] i h = absurd (omega arith)
  take-suc (x ∷ xs) zero h = (x, refl, refl)
  take-suc (x ∷ xs) (suc i) h =
      let (y, g, t) = take-suc xs i (omega arith) in (y, g, ap (λ l. x ∷ l) t)

  collect-take :
      (items : List A) (n i : ℕ) (out : List A)
      → n ≤ i
      → i ≤ length items
      → collect items n i out ≡ out ++ take n (reverse (take i items))
  unfolding collect
  collect-take items zero i out h l = sym (append-nil out)
  collect-take items (suc n) zero out h l = absurd (omega arith)
  collect-take items (suc n) (suc i) out h l =
      let (x, g, t) = take-suc items i (omega arith) in
      rw (one i, g, t, reverse-append (take i items) (x ∷ []))
        (collect-take items n i (out ++ x ∷ []) (omega arith) (omega arith)
          ∙ append_assoc out (x ∷ []) (take n (reverse (take i items))))
    where
      one : (j : ℕ) → suc j - 1 ≡ j
      one j = omega arith

  take_all : (xs : List A) → take (length xs) xs ≡ xs
  take_all [] = refl
  take_all (x ∷ xs) = ap (λ l. x ∷ l) (take_all xs)

  take_over : (n : ℕ) (xs : List A) → length xs ≤ n → take n xs ≡ xs
  take_over zero [] h = refl
  take_over zero (x ∷ xs) h = absurd (omega arith)
  take_over (suc n) [] h = refl
  take_over (suc n) (x ∷ xs) h = ap (λ l. x ∷ l) (take_over n xs (omega arith))

  take_most : (n k : ℕ) (xs : List A) → k ≡ length xs → take (k - (k - n)) xs ≡ take n xs
  take_most n k xs e = elim (dec_lt k n) [
    | yes l ↦ take_over (k - (k - n)) xs (omega arith) ∙ sym (take_over n xs (omega arith))
    | no g ↦ ap (λ j. take j xs) (omega arith)
  ]

  length-reverse : (xs : List A) → length (reverse xs) ≡ length xs
  length-reverse [] = refl
  length-reverse (x ∷ xs) = omega (
    arith,
    ap length (reverse-cons x xs),
    length-append {ℓ} (reverse xs) (x ∷ []),
    length-reverse xs,
  )

  recent-collect :
      (d : DecisionLog A) (n : ℕ)
      → recent d (pos (suc n))
        ≡ collect d.items (length d.items - (length d.items - suc n)) (length d.items) []
  unfolding recent collect
  recent-collect d n = ground arith

  -- `Recent` lists the newest n records, newest first, and all of them if there are fewer.
  pub recent-take : (d : DecisionLog A) (n : ℕ) → recent d (pos n) ≡ take n (reverse d.items)
  unfolding recent
  recent-take d zero = refl
  recent-take d (suc n) =
      recent-collect d n
      ∙ collect-take d.items (length d.items - (length d.items - suc n)) (length d.items) []
          (omega arith) (omega arith)
      ∙ ap (λ l. take (length d.items - (length d.items - suc n)) (reverse l)) (take_all d.items)
      ∙ take_most (suc n) (length d.items) (reverse d.items) (sym (length-reverse d.items))
