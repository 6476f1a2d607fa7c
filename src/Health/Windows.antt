-- ===== src/Health/Windows.antt =====
-- Which results count after a probe.
use signalmesh.Base.{
  ℕ, zero, suc, ◌-◌, ◌≤◌, ◌≡◌, refl, ap, ◌∙◌, Bool, true, false, some, List, [], ◌∷◌, ◌++◌, String,
  All, arith, ltb, Bool-cases, inl, inr, length, length-append, length-drop, drop, drop-append,
}
use signalmesh.Base.Int.{pos, leb_ℤ}
use signalmesh.Base.Clock.{Time, since}
use signalmesh.Base.Maps.{lookup, insert, lookup-insert, str_eq_refl}
use signalmesh.Base.Perms.{sum_of, count_of}
use signalmesh.Health.{
  ProbeResult, Observer, health_window, or_none, results_of, keep_last, record_result, window,
}

ltb-no : (n : ℕ) → ltb 20 n ≡ false → n ≤ 20
ltb-no n h = ground arith

keep_last-append :
    (rs : List ProbeResult) (r : ProbeResult)
    → keep_last (rs ++ r ∷ []) ≡ drop (length rs - 19) rs ++ r ∷ []
unfolding keep_last
keep_last-append rs r = elim (Bool-cases (ltb 20 (length (rs ++ r ∷ [])))) [
  | inl many ↦ rw many (
      ap (λ n. drop n (rs ++ r ∷ [])) (omega (arith, length-append rs (r ∷ [])))
      ∙ drop-append (length rs - 19) rs (r ∷ []) (omega arith))
  | inr few ↦
      let whole : 0 ≡ length rs - 19 =
        omega (arith, length-append rs (r ∷ []), ltb-no (length (rs ++ r ∷ [])) few) in
      rw few (ap (λ n. drop n rs ++ r ∷ []) whole)
]

window-append :
    (now : Time) (rs : List ProbeResult) (r : ProbeResult)
    → leb_ℤ (since now r.timestamp) (pos health_window) ≡ true
    → window now (rs ++ r ∷ []) ≡ window now rs ++ r ∷ []
unfolding window
window-append now [] r h = rw h refl
window-append now (x ∷ rs) r h =
    elim (Bool-cases (leb_ℤ (since now x.timestamp) (pos health_window))) [
      | inl fresh ↦ rw fresh (ap (λ w. x ∷ w) (window-append now rs r h))
      | inr old ↦ rw old (window-append now rs r h)
    ]

-- The window of fewer results is a part of the window.
pub All-window-drop :
    (P : ProbeResult → Type 0) (now : Time) (n : ℕ) (rs : List ProbeResult)
    → All P (window now rs)
    → All P (window now (drop n rs))
unfolding window
All-window-drop P now zero rs h = h
All-window-drop P now (suc n) [] h = tt
All-window-drop P now (suc n) (x ∷ rs) h =
    elim (Bool-cases (leb_ℤ (since now x.timestamp) (pos health_window))) [
      | inl fresh ↦ All-window-drop P now n rs (rw fresh at h).1
      | inr old ↦ All-window-drop P now n rs (rw old at h)
    ]

length-window : (now : Time) (rs : List ProbeResult) → length (window now rs) ≤ length rs
unfolding window
length-window now [] = omega arith
length-window now (r ∷ rs) = ground (arith, length-window now rs)

-- The results that count after a probe: those before it, and its own.
unfoldable pub counted : Time → List ProbeResult → List ProbeResult
counted now rs = window now (drop (length rs - 19) rs)

pub results-record :
    (o : Observer) (provider : String) (r : ProbeResult) (now : Time)
    → leb_ℤ (since now r.timestamp) (pos health_window) ≡ true
    → window now (results_of (record_result o provider r) provider)
      ≡ counted now (results_of o provider) ++ r ∷ []
unfolding record_result counted
results-record o provider r now h =
    let kept = keep_last (results_of o provider ++ r ∷ []) in
    let stored : lookup provider (insert provider kept o.results) ≡ some kept =
      rw (lookup-insert provider provider kept o.results, str_eq_refl provider) refl in
    ap (λ x. window now (or_none x)) stored
    ∙ ap (window now) (keep_last-append (results_of o provider) r)
    ∙ window-append now _ r h

pub few_counted : (now : Time) (rs : List ProbeResult) → length (counted now rs) ≤ 19
unfolding counted
few_counted now rs =
    omega (arith, length-window now (drop (length rs - 19) rs), length-drop (length rs - 19) rs)

pub count_none :
    (test : ProbeResult → Bool) (rs : List ProbeResult)
    → All (λ r. test r ≡ false) rs
    → count_of test rs ≡ 0
unfolding count_of sum_of
count_none test [] h = refl
count_none test (r ∷ rs) h = ground (arith, h.0, count_none test rs h.1)

pub count_all :
    (test : ProbeResult → Bool) (rs : List ProbeResult)
    → All (λ r. test r ≡ true) rs
    → count_of test rs ≡ length rs
unfolding count_of sum_of
count_all test [] h = refl
count_all test (r ∷ rs) h = ground (arith, h.0, count_all test rs h.1)
