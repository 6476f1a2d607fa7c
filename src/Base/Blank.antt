-- ===== src/Base/Blank.antt =====
-- Texts that are not blank, and what trimming keeps of them.
use mathlib.Core.List
use mathlib.Core.List.{List, [], ◌∷◌, reverse}
use Prim.Native.Nat.{ℕ, ◌+◌, ◌≤◌}
use mathlib.Core.Bool.{false, not}
use mathlib.Core.Logic.{inl, inr}
use mathlib.Core.Path.{◌≡◌, refl}
use native.Mathlib.Omega.{arith}
use signalmesh.Base.Tests.{Bool-cases}
use signalmesh.Base.Text.{codes_eq, is_space, trim_left, trim_space}
use signalmesh.Base.Perms.{sum_of, count_of}

-- How many code points are not white space.
unfoldable pub ink : List ℕ → ℕ
ink cs = count_of (λ c. not (is_space c)) cs

ink-reverse : (cs ds : List ℕ) → ink (List.reverse_aux cs ds) ≡ ink cs + ink ds
unfolding ink count_of sum_of
ink-reverse [] ds = omega arith
ink-reverse (c ∷ cs) ds = omega (arith, ink-reverse cs (c ∷ ds))

ink-trim_left : (cs : List ℕ) → ink (trim_left cs) ≡ ink cs
unfolding ink count_of sum_of trim_left
ink-trim_left [] = refl
ink-trim_left (c ∷ cs) = ground (arith, ink-trim_left cs)

no_ink : ink [] ≡ 0
unfolding ink count_of sum_of
no_ink = refl

inked : (cs : List ℕ) → 1 ≤ ink cs → codes_eq cs [] ≡ false
unfolding codes_eq
inked [] h = absurd (omega (arith, no_ink))
inked (c ∷ cs) h = refl

unreversed : (cs : List ℕ) → codes_eq (reverse cs) [] ≡ false → codes_eq cs [] ≡ false
unfolding codes_eq
unreversed [] h = h
unreversed (c ∷ cs) h = refl

pub ink-trim_space : (cs : List ℕ) → ink (trim_space cs) ≡ ink cs
unfolding trim_space
ink-trim_space cs =
    let inner = trim_left (reverse (trim_left cs)) in
    omega (
      arith,
      ink-reverse inner [],
      ink-trim_left (reverse (trim_left cs)),
      ink-reverse (trim_left cs) [],
      ink-trim_left cs,
      no_ink,
    )

trim_left_full : (cs : List ℕ) → codes_eq (trim_left cs) [] ≡ false → 1 ≤ ink (trim_left cs)
unfolding trim_left ink count_of sum_of codes_eq
trim_left_full [] h = cc
trim_left_full (c ∷ cs) h = elim (Bool-cases (is_space c)) [
  | inl space ↦ rw space (trim_left_full cs (rw space at h))
  | inr char ↦ rw (char, char) (omega arith)
]

pub full_ink : (cs : List ℕ) → codes_eq (trim_space cs) [] ≡ false → 1 ≤ ink cs
unfolding trim_space
full_ink cs h =
    let inner = trim_left (reverse (trim_left cs)) in
    omega (
      arith,
      trim_left_full (reverse (trim_left cs)) (unreversed inner h),
      ink-trim_left (reverse (trim_left cs)),
      ink-reverse (trim_left cs) [],
      ink-trim_left cs,
      no_ink,
    )

pub ink_full : (cs : List ℕ) → 1 ≤ ink cs → codes_eq (trim_space cs) [] ≡ false
ink_full cs h = inked (trim_space cs) (omega (arith, ink-trim_space cs))
