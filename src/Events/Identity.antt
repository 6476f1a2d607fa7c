-- ===== src/Events/Identity.antt =====
-- Identifiers from different random bytes are different.
use Prim.Native.Char.{Char, code}
use Prim.Native.String.{◌++◌ as ◌<>◌}
use signalmesh.Base.{
  ℕ, zero, suc, get_elem?, ◌+◌, ◌-◌, ◌/◌, ◌%◌, ◌<◌, ◌≡◌, ◌∙◌, refl, ap, sym, some, List, [], ◌∷◌,
  String, All, arith, length, ltb, if◌then◌else◌,
}
use text.Mathlib.TextLemmas.{append_cancel_left, head-eq_of_cons-eq, tail-eq_of_cons-eq, nil≢cons}
use signalmesh.Events.{digits, or_nul, digit, hex, new_id}

-- The number of a digit.
abbrev value : ℕ → ℕ
value c = if ltb c 58 then c - 48 else c - 87

-- The digits of a table have the numbers from k on.
abbrev CountFrom : ℕ → List Char → Type 0
CountFrom k [] = Unit
CountFrom k (c ∷ cs) = (value (code c) ≡ k) × CountFrom (k + 1) cs

value-table :
    (k : ℕ) (cs : List Char) (n : ℕ)
    → CountFrom k cs
    → n < length cs
    → value (code (or_nul (get_elem? cs n))) ≡ k + n
value-table k [] n h l = absurd (omega (arith, l))
value-table k (c ∷ cs) zero h l = omega (arith, h.0)
value-table k (c ∷ cs) (suc n) h l = value-table (k + 1) cs n h.1 (omega (arith, l)) ∙ omega arith

value-digit : (n : ℕ) → n < 16 → value (code (digit n)) ≡ n
value-digit n h = value-table 0 digits n table h ∙ omega arith
  where
    table : CountFrom 0 digits
    table = (
      refl,
      (
        refl,
        (
          refl,
          (
            refl,
            (
              refl,
              (
                refl,
                (refl, (refl, (refl, (refl, (refl, (refl, (refl, (refl, (refl, (refl, tt)))))))))),
              ),
            ),
          ),
        ),
      ),
    )

digit_inj : (m n : ℕ) → m < 16 → n < 16 → digit m ≡ digit n → m ≡ n
digit_inj m n hm hn e = sym (value-digit m hm) ∙ ap (λ c. value (code c)) e ∙ value-digit n hn

abbrev IsByte : ℕ → Type 0
IsByte b = b < 256

byte_split : (a b : ℕ) → a / 16 ≡ b / 16 → a % 16 ≡ b % 16 → a ≡ b
byte_split a b h l = omega (arith, h, l)

hex_inj : (xs ys : List ℕ) → All IsByte xs → All IsByte ys → hex xs ≡ hex ys → xs ≡ ys
hex_inj [] [] ha hb e = refl
hex_inj [] (b ∷ ys) ha hb e = absurd (nil≢cons e)
hex_inj (a ∷ xs) [] ha hb e = absurd (nil≢cons (sym e))
hex_inj (a ∷ xs) (b ∷ ys) ha hb e =
    let high : a / 16 ≡ b / 16 =
      digit_inj (a / 16) (b / 16) (omega (arith, ha.0)) (omega (arith, hb.0))
        (head-eq_of_cons-eq e) in
    let rest = tail-eq_of_cons-eq e in
    let low : a % 16 ≡ b % 16 =
      digit_inj (a % 16) (b % 16) (omega arith) (omega arith) (head-eq_of_cons-eq rest) in
    let tails = hex_inj xs ys ha.1 hb.1 (tail-eq_of_cons-eq rest) in
    cc (byte_split a b high low, tails)

-- Two identifiers with the same prefix that are made from random bytes are equal only if the bytes
-- are the same.
new_id_inj :
    (prefix t u : String) (xs ys : List ℕ)
    → All IsByte xs
    → All IsByte ys
    → new_id prefix (some xs) t ≡ new_id prefix (some ys) u
    → xs ≡ ys
unfolding new_id
new_id_inj prefix t u xs ys ha hb e = hex_inj xs ys ha hb (
    append_cancel_left "-" (hex xs) (hex ys)
      (append_cancel_left prefix ("-" <> hex xs) ("-" <> hex ys) e))
