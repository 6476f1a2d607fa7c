-- ===== src/Base/Perms.antt =====
-- Sums over lists, and what a change of order leaves alone.
use Prim.Native.Nat.{ℕ, zero, suc, ◌+◌}
use mathlib.Core.Bool.{Bool}
use mathlib.Core.Path.{◌≡◌, refl, ◌∙◌, ap, subst, sym}
use mathlib.Core.List.{List, [], ◌∷◌, ◌++◌, map, Permᴰ}
use native.Mathlib.Omega.{arith}
use signalmesh.Base.Lists.{All}
use signalmesh.Base.Tests.{if◌then◌else◌}

module _ {ℓ} {A : Type ℓ} where
  unfoldable pub sum_of : (A → ℕ) → List A → ℕ
  sum_of f [] = 0
  sum_of f (x ∷ xs) = f x + sum_of f xs

  -- How many elements pass a test.
  unfoldable pub count_of : (A → Bool) → List A → ℕ
  unfolding sum_of
  count_of t xs = sum_of (λ x. if t x then 1 else 0) xs

  pub sum_of-perm : (f : A → ℕ) {xs ys : List A} → Permᴰ xs ys → sum_of f xs ≡ sum_of f ys
  unfolding sum_of
  sum_of-perm f Permᴰ.nil = refl
  sum_of-perm f (Permᴰ.cons e p) = omega (arith, ap f e, sum_of-perm f p)
  sum_of-perm f (Permᴰ.swap d e) = omega (arith, ap f d, ap f e)
  sum_of-perm f (Permᴰ.trans p q) = sum_of-perm f p ∙ sum_of-perm f q

  pub count_of-perm : (t : A → Bool) {xs ys : List A} → Permᴰ xs ys → count_of t xs ≡ count_of t ys
  unfolding count_of
  count_of-perm t p = sum_of-perm (λ x. if t x then 1 else 0) p

  pub All-perm {κ} : (P : A → Type κ) {xs ys : List A} → Permᴰ xs ys → All P ys → All P xs
  All-perm P Permᴰ.nil h = h
  All-perm P (Permᴰ.cons e p) h = (subst P (sym e) h.0, All-perm P p h.1)
  All-perm P (Permᴰ.swap d e) h = (subst P (sym d) h.1.0, (subst P (sym e) h.0, h.1.1))
  All-perm P (Permᴰ.trans p q) h = All-perm P p (All-perm P q h)

pub sum_of-append :
    {A : Type 0} (f : A → ℕ) (xs ys : List A) → sum_of f (xs ++ ys) ≡ sum_of f xs + sum_of f ys
unfolding sum_of
sum_of-append f [] ys = omega arith
sum_of-append f (x ∷ xs) ys = omega (arith, sum_of-append f xs ys)

pub sum_of-single : (f : ℕ → ℕ) (n : ℕ) → sum_of f (n ∷ []) ≡ f n
unfolding sum_of
sum_of-single f n = omega arith

-- The numbers below one.
abbrev pub upto : ℕ → List ℕ
upto zero = []
upto (suc n) = upto n ++ (n ∷ [])

pub sum_of-upto : (f : ℕ → ℕ) (n : ℕ) → sum_of f (upto (n + 1)) ≡ sum_of f (upto n) + f n
sum_of-upto f n =
    ap (λ k. sum_of f (upto k)) (one_more n)
    ∙ sum_of-append f (upto n) (n ∷ [])
    ∙ ap (λ k. sum_of f (upto n) + k) (sum_of-single f n)
  where
    one_more : (k : ℕ) → k + 1 ≡ suc k
    one_more k = omega arith

pub sum_of-map :
    {A B : Type 0} (f : B → ℕ) (g : A → B) (xs : List A)
    → sum_of f (map g xs) ≡ sum_of (λ x. f (g x)) xs
unfolding sum_of
sum_of-map f g [] = refl
sum_of-map f g (x ∷ xs) = ap (λ n. f (g x) + n) (sum_of-map f g xs)
