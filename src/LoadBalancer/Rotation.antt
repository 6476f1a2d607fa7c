-- ===== src/LoadBalancer/Rotation.antt =====
-- A request that no other disturbs reaches every backend.
use signalmesh.Base.{
  ℕ, zero, suc, ◌+◌, ◌-◌, ◌*◌, ◌/◌, ◌%◌, ◌<◌, ◌≤◌, ◌≡◌, refl, ap, ◌∙◌, true, Option, some, List, [],
  ◌∷◌, arith, length, get_elem?, Option-cases, inl, inr, Bool-cases, leb, leb→le, ◌⊎◌,
}
use signalmesh.Base.Sorting.{get_within}
use native.Mathlib.Nat.{mod-eq_of_lt, mul-add-mod_self_left, mod-lt, div-add-mod}
use signalmesh.LoadBalancer.{Request, Outcome, target, next, nexts, try_backends, serve_http}

-- From one position of a round to another it is less than a round.
ahead_by :
    (p n m j : ℕ)
    → m < n
    → j < n
    → (d : ℕ) × (d < n) × ((p + m + d ≡ p + j) ⊎ (p + m + d ≡ p + n + j))
ahead_by p n m j low high = elim (Bool-cases (leb m j)) [
  | inl ahead ↦ let l = leb→le m j ahead in (j - m, omega (arith, l), inl (omega (arith, l)))
  | inr behind ↦
      let l : j < m = ground arith in (j + n - m, omega (arith, l), inr (omega (arith, l, low)))
]

next_round : (n q : ℕ) → n * q + n ≡ n * (q + 1)
next_round n q = grind arith

-- The distance to an index in the rotation.
distance : (c n j : ℕ) → j < n → (d : ℕ) × (d < n) × ((c + d) % n ≡ j)
distance c n j h =
    let turned : (q e : ℕ) → c + e ≡ n * q + j → (c + e) % n ≡ j =
      λ q e same. ap (λ x. x % n) same ∙ mul-add-mod_self_left n q j ∙ mod-eq_of_lt h in
    let whole : n * (c / n) + c % n ≡ c = div-add-mod c n in
    let (d, near, hit) = ahead_by (n * (c / n)) n (c % n) j (mod-lt c (omega (arith, h))) h in
    (
      d,
      near,
      elim hit [
        | inl same ↦ turned (c / n) d (omega (arith, same, whole))
        | inr same ↦ turned (c / n + 1) d (omega (arith, same, whole, next_round n (c / n)))
      ],
    )

within : {A : Type 0} (xs : List A) (j : ℕ) (x : A) → get_elem? xs j ≡ some x → j < length xs
within [] j x h = cc
within (y ∷ ys) zero x h = omega arith
within (y ∷ ys) (suc j) x h = omega (arith, within ys j x h)

module _ {R : Type 0} (backends : List (List ℕ)) (r : Request)
    (exchange : ℕ → List ℕ → Option R) where
  -- Nobody else calls `next` in between.
  abbrev alone : ℕ → ℕ
  alone i = 0

  reaches :
      (b : List ℕ) (j i left c d : ℕ)
      → get_elem? backends j ≡ some b
      → ((k : ℕ) → (resp : R) × (exchange k (target b r) ≡ some resp))
      → d < left
      → (suc c + d) % length backends ≡ j
      → c + left < 18446744073709551616
      → 1 ≤ length backends
      → (resp : R) × ((try_backends backends r exchange alone i left c).1 ≡ Outcome.answered resp)
  unfolding try_backends next nexts
  reaches b j i zero c d here up near turn small some_ = absurd (omega arith)
  reaches b j i (suc left) c zero here up near turn small some_ =
      let mine : (c + 1) % 18446744073709551616 ≡ suc c =
        mod-eq_of_lt (omega (arith, small)) ∙ omega arith in
      let at : get_elem? backends (suc c % length backends) ≡ some b =
        ap (get_elem? backends) (ap (λ x. x % length backends) (omega arith) ∙ turn) ∙ here in
      let (resp, sent) = up i in (resp, rw (mine, at, sent) refl)
  reaches b j i (suc left) c (suc d) here up near turn small some_ =
      let mine : (c + 1) % 18446744073709551616 ≡ suc c =
        mod-eq_of_lt (omega (arith, small)) ∙ omega arith in
      let (b', at) =
        get_within backends (suc c % length backends) (mod-lt (suc c) (omega (arith, some_))) in
      elim (Option-cases (exchange i (target b' r))) [
        | inr (resp, sent) ↦ (resp, rw (mine, at, sent) refl)
        | inl down ↦
            let same : suc (suc c) + d ≡ suc c + suc d = omega arith in
            rw (mine, at, down)
              (reaches b j (suc i) left (suc c) d here up (omega (arith, near))
                (ap (λ x. x % length backends) same ∙ turn) (omega (arith, small)) some_)
      ]

  -- If a backend answers every request that reaches it, the body can be read, the counter does not
  -- wrap during the request and no other request calls `next` meanwhile, then some backend's response
  -- is passed on, whatever the other backends do.
  pub reaches_backend :
      (b : List ℕ) (j current : ℕ)
      → get_elem? backends j ≡ some b
      → ((k : ℕ) → (resp : R) × (exchange k (target b r) ≡ some resp))
      → r.readable ≡ true
      → current + length backends < 18446744073709551616
      → (resp : R) × ((serve_http
            (record { backends = backends; current = current })
            r
            exchange
            alone).1
          ≡ Outcome.answered resp)
  unfolding serve_http
  reaches_backend b j current here up readable small =
      let inside = within backends j b here in
      let (d, near, turn) = distance (suc current) (length backends) j inside in
      let (resp, e) =
        reaches b j 0 (length backends) current d here up near turn small (omega (arith, inside)) in
      (resp, simp readable e)
