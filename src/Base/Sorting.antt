-- ===== src/Base/Sorting.antt =====
-- `sort.Slice` on integers in ascending order, whose result does not depend on the algorithm.
use Prim.Native.Nat.{ℕ, zero, suc, ◌-◌, ◌≤◌}
use mathlib.Core.Bool.{false}
use mathlib.Core.Logic.{inl, inr}
use mathlib.Core.Path.{◌≡◌, refl}
use mathlib.Core.List.{List, [], ◌∷◌, map}
use mathlib.Core.Option.{Option, some}
use native.Mathlib.Omega.{arith}
use signalmesh.Base.Tests.{if◌then◌else◌, Bool-cases}
use signalmesh.Base.Int.{ℤ, pos, negsuc, leb_ℤ, ◌≤ℤ◌, leb_ℤ→le, leb_ℤ→lt}
use signalmesh.Base.Lists.{All, All-get, length, get_elem?}

insert_sorted : ℤ → List ℤ → List ℤ
insert_sorted x [] = x ∷ []
insert_sorted x (y ∷ ys) =
    let rest = insert_sorted x ys in if leb_ℤ x y then x ∷ y ∷ ys else y ∷ rest

unfoldable pub sort : List ℤ → List ℤ
unfolding insert_sorted
sort [] = []
sort (x ∷ xs) = insert_sorted x (sort xs)

abbrev pub IsSorted : List ℤ → Type 0
IsSorted [] = Unit
IsSorted (x ∷ xs) = All (λ y. x ≤ℤ y) xs × IsSorted xs

All-insert_sorted {κ} :
    (P : ℤ → Type κ) (x : ℤ) (ys : List ℤ) → P x → All P ys → All P (insert_sorted x ys)
unfolding insert_sorted
All-insert_sorted P x [] h t = (h, t)
All-insert_sorted P x (y ∷ ys) h t = elim (Bool-cases (leb_ℤ x y)) [
  | inl le ↦ rw le (h, t)
  | inr gt ↦ rw gt (t.0, All-insert_sorted P x ys h t.1)
]

pub All-sort {κ} : (P : ℤ → Type κ) (xs : List ℤ) → All P xs → All P (sort xs)
unfolding sort
All-sort P [] h = h
All-sort P (x ∷ xs) h = All-insert_sorted P x (sort xs) h.0 (All-sort P xs h.1)

length-insert_sorted : (x : ℤ) (ys : List ℤ) → length (insert_sorted x ys) ≡ suc (length ys)
unfolding insert_sorted
length-insert_sorted x [] = refl
length-insert_sorted x (y ∷ ys) = ground (arith, length-insert_sorted x ys)

pub length-sort : (xs : List ℤ) → length (sort xs) ≡ length xs
unfolding sort
length-sort [] = refl
length-sort (x ∷ xs) = omega (arith, length-insert_sorted x (sort xs), length-sort xs)

above : (x y : ℤ) (ys : List ℤ) → x ≤ℤ y → All (λ z. y ≤ℤ z) ys → All (λ z. x ≤ℤ z) ys
above x y [] h t = tt
above x y (z ∷ zs) h t = (omega (arith, t.0), above x y zs h t.1)

insert_sorted-IsSorted : (x : ℤ) (ys : List ℤ) → IsSorted ys → IsSorted (insert_sorted x ys)
unfolding insert_sorted
insert_sorted-IsSorted x [] s = (tt, tt)
insert_sorted-IsSorted x (y ∷ ys) s = elim (Bool-cases (leb_ℤ x y)) [
  | inl le ↦ rw le ((leb_ℤ→le x y le, above x y ys (leb_ℤ→le x y le) s.0), s)
  | inr gt ↦ rw gt (
    All-insert_sorted (λ z. y ≤ℤ z) x ys (let h = leb_ℤ→lt x y gt in omega arith) s.0,
    insert_sorted-IsSorted x ys s.1,
  )
]

pub sort-IsSorted : (xs : List ℤ) → IsSorted (sort xs)
unfolding sort
sort-IsSorted [] = tt
sort-IsSorted (x ∷ xs) = insert_sorted-IsSorted x (sort xs) (sort-IsSorted xs)

-- In a sorted list a later element is no smaller.
pub get_mono :
    (xs : List ℤ) (i j : ℕ) (a b : ℤ)
    → IsSorted xs
    → i ≤ j
    → get_elem? xs i ≡ some a
    → get_elem? xs j ≡ some b
    → a ≤ℤ b
get_mono [] i j a b s l p q = cc
get_mono (x ∷ xs) zero zero a b s l p q = ground arith
get_mono (x ∷ xs) zero (suc j) a b s l p q = ground (arith, All-get (λ y. x ≤ℤ y) xs j b s.0 q)
get_mono (x ∷ xs) (suc i) zero a b s l p q = absurd (omega arith)
get_mono (x ∷ xs) (suc i) (suc j) a b s l p q = get_mono xs i j a b s.1 (omega arith) p q

pub get_within {ℓ} :
    {A : Type ℓ} (xs : List A) (i : ℕ) → suc i ≤ length xs → (a : A) × (get_elem? xs i ≡ some a)
get_within [] i h = absurd (omega arith)
get_within (x ∷ xs) zero h = (x, refl)
get_within (x ∷ xs) (suc i) h = get_within xs i (omega arith)

-- The last entry, for lists of which it is known that they have one.
abbrev pub at_end : List ℤ → Option ℤ
at_end xs = get_elem? xs (length xs - 1)

-- An index below 0 keeps the last one. `none` would be a panic.
abbrev pub at_index : List ℤ → ℤ → Option ℤ
at_index xs (pos i) = get_elem? xs i
at_index xs (negsuc i) = at_end xs

abbrev pub clamp : ℕ → ℤ → ℤ
clamp n idx = if leb_ℤ (pos n) idx then pos (n - 1) else idx

at_index-any :
    (xs : List ℤ) (n : ℕ) (idx : ℤ)
    → length xs ≡ suc n
    → leb_ℤ (pos (suc n)) idx ≡ false
    → (p : ℤ) × (at_index xs idx ≡ some p)
at_index-any xs n (pos i) l w = get_within xs i (ground arith)
at_index-any xs n (negsuc i) l w = get_within xs (length xs - 1) (omega (arith, l))

-- An index that is cut off at the end reads an entry.
pub at_index-clamp :
    (xs : List ℤ) (n : ℕ) (idx : ℤ)
    → length xs ≡ suc n
    → (p : ℤ) × (at_index xs (clamp (suc n) idx) ≡ some p)
at_index-clamp xs n idx l = elim (Bool-cases (leb_ℤ (pos (suc n)) idx)) [
  | inl above ↦ rw above (get_within xs (suc n - 1) (omega (arith, l)))
  | inr within ↦ rw within (at_index-any xs n idx l within)
]

pub length-map : {A B : Type 0} (f : A → B) (xs : List A) → length (map f xs) ≡ length xs
length-map f [] = refl
length-map f (x ∷ xs) = omega (arith, length-map f xs)
