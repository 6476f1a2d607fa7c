-- ===== src/Metrics/Joined.antt =====
-- The header of reasons: `strings.Join(codes, ",")` (services/signalmesh-node/internal/proxy/handler.go),
-- which the middleware takes apart again (services/signalmesh-node/internal/observability/middleware.go).
use mathlib.Core.List.{reverse, reverse-cons, reverse-reverse, append-nil, append_assoc}
use signalmesh.Base.{
  All, ap, sym, ◌∙◌, ℕ, ◌≡◌, refl, Bool, true, false, not, ◌&&◌, ◌||◌, List, [], ◌∷◌, ◌++◌, map,
  arith, leb, ◌==◌,
}
use signalmesh.Base.Text.{
  codes, codes_eq, is_space, trim_left, trim_space, split_commas, trimmed_parts,
}
use signalmesh.Metrics.{split_csv}
use signalmesh.Reasons.{Reason, reason_text}

abbrev pub reason_codes : Reason → List ℕ
reason_codes r = codes (reason_text r)

-- A letter, a digit or an underscore of a reason code.
abbrev pub is_letter : ℕ → Bool
is_letter c = (leb b'A' c && leb c b'Z') || (leb b'0' c && leb c b'9') || c == b'_'

abbrev pub all_letters : List ℕ → Bool
all_letters [] = true
all_letters (c ∷ cs) = is_letter c && all_letters cs

abbrev pub is_word : List ℕ → Bool
is_word [] = false
is_word (c ∷ cs) = is_letter c && all_letters cs

reason-is_word : (r : Reason) → is_word (reason_codes r) ≡ true
reason-is_word Reason.no_providers_registered = refl
reason-is_word _ = refl

-- `strings.Join` with commas.
abbrev pub join : List (List ℕ) → List ℕ
join [] = []
join (w ∷ []) = w
join (w ∷ v ∷ ws) = w ++ b',' ∷ join (v ∷ ws)

-- The value of the header.
abbrev pub header_of : List Reason → List ℕ
header_of rs = join (map reason_codes rs)

abbrev AreWords : List (List ℕ) → Type 0
AreWords = All (λ w. is_word w ≡ true)

reasons-AreWords : (rs : List Reason) → AreWords (map reason_codes rs)
reasons-AreWords [] = tt
reasons-AreWords (r ∷ rs) = (reason-is_word r, reasons-AreWords rs)

-- Without white space.
abbrev is_dense : List ℕ → Bool
is_dense [] = true
is_dense (c ∷ cs) = not (is_space c) && is_dense cs

letter_dense : (c : ℕ) → is_letter c ≡ true → is_space c ≡ false
unfolding is_space
letter_dense c h = ground arith

letters_dense : (cs : List ℕ) → all_letters cs ≡ true → is_dense cs ≡ true
letters_dense [] h = refl
letters_dense (c ∷ cs) h = ground (arith, letter_dense c, letters_dense cs)

word_letters : (w : List ℕ) → is_word w ≡ true → all_letters w ≡ true
word_letters [] h = cc
word_letters (c ∷ cs) h = h

dense-append :
    (xs ys : List ℕ) → is_dense xs ≡ true → is_dense ys ≡ true → is_dense (xs ++ ys) ≡ true
dense-append [] ys h k = k
dense-append (x ∷ xs) ys h k = ground (arith, dense-append xs ys)

comma_dense : is_space b',' ≡ false
unfolding is_space
comma_dense = refl

word_dense : (w : List ℕ) → is_word w ≡ true → is_dense w ≡ true
word_dense w h = letters_dense w (word_letters w h)

join_dense : (ws : List (List ℕ)) → AreWords ws → is_dense (join ws) ≡ true
join_dense [] h = refl
join_dense (w ∷ []) h = word_dense w h.0
join_dense (w ∷ v ∷ ws) h =
    dense-append w _ (word_dense w h.0) (ground (arith, comma_dense, join_dense (v ∷ ws) h.1))

reverse_dense : (cs : List ℕ) → is_dense cs ≡ true → is_dense (reverse cs) ≡ true
reverse_dense [] h = refl
reverse_dense (c ∷ cs) h =
    rw (reverse-cons c cs)
      (dense-append (reverse cs) _ (reverse_dense cs (ground (arith, h))) (ground (arith, h)))

trim_left-dense : (cs : List ℕ) → is_dense cs ≡ true → trim_left cs ≡ cs
unfolding trim_left
trim_left-dense [] h = refl
trim_left-dense (c ∷ cs) h = ground arith

trim_space-dense : (cs : List ℕ) → is_dense cs ≡ true → trim_space cs ≡ cs
unfolding trim_space
trim_space-dense cs h =
    rw (trim_left-dense cs h, trim_left-dense (reverse cs) (reverse_dense cs h))
      (reverse-reverse cs)

not_comma : (c : ℕ) → is_letter c ≡ true → (c == b',') ≡ false
not_comma c h = ground arith

shifted : (part : List ℕ) (c : ℕ) (cs : List ℕ) → reverse (c ∷ part) ++ cs ≡ reverse part ++ c ∷ cs
shifted part c cs = rw (reverse-cons c part) (append_assoc (reverse part) (c ∷ []) cs)

split-last :
    (part cs : List ℕ) → all_letters cs ≡ true → split_commas part cs ≡ (reverse part ++ cs) ∷ []
unfolding split_commas
split-last part [] h = ap (λ x. x ∷ []) (sym (append-nil (reverse part)))
split-last part (c ∷ cs) h =
    rw (not_comma c (ground (arith, h)), split-last (c ∷ part) cs (ground (arith, h)))
      (ap (λ x. x ∷ []) (shifted part c cs))

split-part :
    (part cs rest : List ℕ)
    → all_letters cs ≡ true
    → split_commas part (cs ++ b',' ∷ rest) ≡ (reverse part ++ cs) ∷ split_commas [] rest
unfolding split_commas
split-part part [] rest h = ap (λ x. x ∷ split_commas [] rest) (sym (append-nil (reverse part)))
split-part part (c ∷ cs) rest h =
    rw (not_comma c (ground (arith, h)), split-part (c ∷ part) cs rest (ground (arith, h)))
      (ap (λ x. x ∷ split_commas [] rest) (shifted part c cs))

split-join :
    (w : List ℕ) (ws : List (List ℕ)) → AreWords (w ∷ ws) → split_commas [] (join (w ∷ ws)) ≡ w ∷ ws
split-join w [] h = split-last [] w (word_letters w h.0)
split-join w (v ∷ ws) h =
    split-part [] w (join (v ∷ ws)) (word_letters w h.0) ∙ ap (λ x. w ∷ x) (split-join v ws h.1)

trimmed_parts-words : (ws : List (List ℕ)) → AreWords ws → trimmed_parts ws ≡ ws
unfolding trimmed_parts codes_eq
trimmed_parts-words [] h = refl
trimmed_parts-words ([] ∷ ws) h = absurd (cc (h.0))
trimmed_parts-words ((c ∷ cs) ∷ ws) h =
    rw (trim_space-dense (c ∷ cs) (word_dense (c ∷ cs) h.0), trimmed_parts-words ws h.1) refl

join_some :
    (w : List ℕ) (ws : List (List ℕ)) → is_word w ≡ true → codes_eq (join (w ∷ ws)) [] ≡ false
unfolding codes_eq
join_some [] ws h = cc
join_some (c ∷ cs) [] h = refl
join_some (c ∷ cs) (v ∷ ws) h = refl

split_csv-join : (ws : List (List ℕ)) → AreWords ws → split_csv (join ws) ≡ ws
unfolding split_csv codes_eq
split_csv-join [] h = refl
split_csv-join (w ∷ ws) h =
    rw
      (
        trim_space-dense (join (w ∷ ws)) (join_dense (w ∷ ws) h),
        join_some w ws h.0,
        split-join w ws h,
      )
      (trimmed_parts-words (w ∷ ws) h)

-- What the middleware reads from the header of reasons is the list that the handler put there.
pub split_csv-header_of : (rs : List Reason) → split_csv (header_of rs) ≡ map reason_codes rs
split_csv-header_of rs = split_csv-join (map reason_codes rs) (reasons-AreWords rs)
