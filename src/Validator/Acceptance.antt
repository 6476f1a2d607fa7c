-- ===== src/Validator/Acceptance.antt =====
-- When a response is accepted, and what an answer says of it.
use signalmesh.Base.{
  ◌≤◌, ◌≡◌, ◌≢◌, refl, ◌↔◌, inl, inr, true, false, Option, none, some, List, [], ◌∷◌, ◌++◌, String,
  arith, ltb, All, Bool-cases,
}
use signalmesh.Base.Maps.{Map, lookup}
use signalmesh.Base.Text.{codes, codes_eq, trim_space, byte_length}
use signalmesh.Base.Float.{Float64, lit, flt}
use signalmesh.Reasons.{Reason}
use signalmesh.Validator.{
  Json, Decoder, Contract, Result, missing_fields, answer_reasons, confidence_reasons, finish,
  check_fields, check_payload, validate,
}

-- A field `answer` is a text that is not blank, if it is there.
abbrev pub IsAnswer : {F : Type 0} → Option (Json F) → Type 0
IsAnswer none = Unit
IsAnswer (some (Json.string s)) = codes_eq (trim_space (codes s)) [] ≡ false
IsAnswer (some (Json.number v)) = ⊥
IsAnswer (some Json.other) = ⊥

missing_nil :
    {F : Type 0} (payload : Map (Json F)) (fs : List String)
    → missing_fields payload fs ≡ []
    → All (λ f. lookup f payload ≢ none) fs
unfolding missing_fields
missing_nil payload [] h = tt
missing_nil payload (f ∷ fs) h = (ground arith, missing_nil payload fs (ground arith))

nil_missing :
    {F : Type 0} (payload : Map (Json F)) (fs : List String)
    → All (λ f. lookup f payload ≢ none) fs
    → missing_fields payload fs ≡ []
unfolding missing_fields
nil_missing payload [] h = refl
nil_missing payload (f ∷ fs) h = ground (arith, h.0, nil_missing payload fs h.1)

IsAnswer-iff : {F : Type 0} (o : Option (Json F)) → (answer_reasons o ≡ []) ↔ IsAnswer o
unfolding answer_reasons
IsAnswer-iff none = (λ _. tt, λ _. refl)
IsAnswer-iff (some (Json.string s)) = (λ h. ground arith, λ h. ground arith)
IsAnswer-iff (some (Json.number v)) = (λ h. cc, λ h. absurd h)
IsAnswer-iff (some Json.other) = (λ h. cc, λ h. absurd h)

append_nil_iff : (xs ys : List Reason) → (xs ++ ys ≡ []) ↔ ((xs ≡ []) × (ys ≡ []))
append_nil_iff [] ys = (λ h. (refl, h), λ h. h.1)
append_nil_iff (x ∷ xs) ys = (λ h. cc, λ h. cc)

module _ {F : Type 0} ⦃fl : Float64 F⦄ where
  -- A field `confidence` is a number from 0 to 1 and not below the minimum, if it is there.
  abbrev pub IsConfident : Contract F → Option (Json F) → Type 0
  IsConfident c none = Unit
  IsConfident c (some (Json.number v)) =
      (flt v (lit 0 0) ≡ false) × (flt (lit 1 0) v ≡ false) × (flt v c.min_confidence ≡ false)
  IsConfident c (some (Json.string s)) = ⊥
  IsConfident c (some Json.other) = ⊥

  confidence_iff :
      (c : Contract F) (o : Option (Json F)) → (confidence_reasons c o ≡ []) ↔ IsConfident c o
  unfolding confidence_reasons
  confidence_iff c none = (λ _. tt, λ _. refl)
  confidence_iff c (some (Json.number v)) = (λ h. ground arith, λ h. ground arith)
  confidence_iff c (some (Json.string s)) = (λ h. cc, λ h. absurd h)
  confidence_iff c (some Json.other) = (λ h. cc, λ h. absurd h)

  -- What the contract asks of a decoded object.
  abbrev pub IsComplete : Contract F → Map (Json F) → Type 0
  IsComplete c payload =
      All (λ f. lookup f payload ≢ none) c.required_fields
      × IsAnswer (lookup "answer" payload)
      × IsConfident c (lookup "confidence" payload)

  finish_valid :
      (conf : Option (Json F)) (rs : List Reason) → ((finish conf rs).valid ≡ true) ↔ (rs ≡ [])
  unfolding finish
  finish_valid conf [] = (λ _. refl, λ _. refl)
  finish_valid conf (r ∷ rs) = (λ h. cc, λ h. cc)

  fields_valid :
      (c : Contract F) (payload : Map (Json F)) (rs : List Reason)
      → ((check_fields c payload rs).valid ≡ true) ↔ (
          (rs ≡ [])
          × IsAnswer (lookup "answer" payload)
          × IsConfident c (lookup "confidence" payload))
  unfolding check_fields
  fields_valid c payload [] =
      let conf = lookup "confidence" payload in
      let ans = lookup "answer" payload in
      let fin = finish_valid conf (answer_reasons ans ++ confidence_reasons c conf) in
      let app = append_nil_iff (answer_reasons ans) (confidence_reasons c conf) in
      (
        (λ h.
            let both = app.0 (fin.0 h) in
            (refl, (IsAnswer-iff ans).0 both.0, (confidence_iff c conf).0 both.1)),
        λ h. fin.1 (app.1 ((IsAnswer-iff ans).1 h.1, (confidence_iff c conf).1 h.2)),
      )
  fields_valid c payload (r ∷ rs) = (λ h. cc, λ h. cc)

  abbrev pub IsDecoded : Contract F → Option (Map (Json F)) → Type 0
  IsDecoded c none = ⊥
  IsDecoded c (some payload) = IsComplete c payload

  payload_valid :
      (c : Contract F) (o : Option (Map (Json F)))
      → ((check_payload c o).valid ≡ true) ↔ IsDecoded c o
  unfolding check_payload
  payload_valid c none = (λ h. cc, λ h. absurd h)
  payload_valid c (some payload) =
      let iff = fields_valid c payload (missing_fields payload c.required_fields) in
      (
        (λ h. let r = iff.0 h in (missing_nil payload c.required_fields r.0, r.1, r.2)),
        λ h. iff.1 (nil_missing payload c.required_fields h.0, h.1, h.2),
      )

  -- A response is valid exactly when its trimmed content is not empty and no longer than the limit,
  -- decodes to an object with every required field, whose answer is a text that is not blank and
  -- whose confidence is a number between 0 and 1 that is not below the minimum.
  pub valid_iff :
      (decode : Decoder F) (content : String) (c : Contract F)
      → let trimmed = trim_space (codes content) in
        ((validate decode content c).valid ≡ true) ↔ (
          (codes_eq trimmed [] ≡ false)
          × (byte_length trimmed ≤ c.max_content_bytes)
          × IsDecoded c (decode trimmed))
  unfolding validate
  valid_iff decode content c =
      let iff = payload_valid c (decode (trim_space (codes content))) in
      ((λ h. (ground arith, ground arith, iff.0 (ground arith))), λ h. ground (arith, iff.1 h.2))

  -- A verdict and its reasons agree.
  abbrev pub IsExplained : Result F → Type 0
  IsExplained r = (r.valid ≡ true) ↔ (r.reason_codes ≡ [])

  finish-IsExplained : (conf : Option (Json F)) (rs : List Reason) → IsExplained (finish conf rs)
  unfolding finish
  finish-IsExplained conf [] = (λ _. refl, λ _. refl)
  finish-IsExplained conf (r ∷ rs) = (λ h. cc, λ h. cc)

  fields-IsExplained :
      (c : Contract F) (payload : Map (Json F)) (rs : List Reason)
      → IsExplained (check_fields c payload rs)
  unfolding check_fields
  fields-IsExplained c payload [] = finish-IsExplained (lookup "confidence" payload) _
  fields-IsExplained c payload (r ∷ rs) = (λ h. cc, λ h. cc)

  payload-IsExplained :
      (c : Contract F) (o : Option (Map (Json F))) → IsExplained (check_payload c o)
  unfolding check_payload
  payload-IsExplained c none = (λ h. cc, λ h. cc)
  payload-IsExplained c (some payload) =
      fields-IsExplained c payload (missing_fields payload c.required_fields)

  -- A response is valid exactly when no reason code is given, on every path: none is rejected
  -- without a reason, and none is accepted with one.
  pub validate-IsExplained :
      (decode : Decoder F) (content : String) (c : Contract F)
      → IsExplained (validate decode content c)
  unfolding validate
  validate-IsExplained decode content c =
      let rest = payload-IsExplained c (decode (trim_space (codes content))) in
      elim (Bool-cases (codes_eq (trim_space (codes content)) [])) [
        | inl blank ↦ rw blank ((λ h. cc), λ h. cc)
        | inr text ↦
            elim (Bool-cases (ltb c.max_content_bytes (byte_length (trim_space (codes content))))) [
              | inl long ↦ rw (text, long) ((λ h. cc), λ h. cc)
              | inr fits ↦ rw (text, fits) rest
            ]
      ]
