-- ===== src/Validator.antt =====
-- services/signalmesh-node/internal/validator/validator.go: the contract of a response's content.
-- The decoder of package encoding/json is the argument `decode`: the object's fields, or `none` for
-- an error. It makes no Go value of type `int`, so that case of the source is not a constructor.
-- The text `Details`, which nothing reads, is left out.
pub mod Acceptance
use signalmesh.Base.{
  ℕ, ◌+◌, ◌<◌, Bool, true, false, not, ◌&&◌, ◌||◌, Option, none, some, List, [], ◌∷◌, ◌++◌, String,
  ltb, leb, if◌then◌else◌,
}
use signalmesh.Base.Maps.{Map, lookup}
use signalmesh.Base.Text.{codes, codes_eq, trim_space, byte_length}
use signalmesh.Base.Float.{Float64, lit, flt, fle, fmul}
use signalmesh.Reasons.{Reason}

-- A decoded value, as far as the validator tells its type.
pub data Json (F : Type 0) : Type 0 where
  string : String → Json F
  number : F → Json F
  other : Json F

abbrev pub Decoder : Type 0 → Type 0
Decoder F = List ℕ → Option (Map (Json F))

pub record Contract (F : Type 0) : Type 0 where
  pub required_fields : List String
  pub min_confidence : F
  pub max_content_bytes : ℕ

pub record Result (F : Type 0) : Type 0 where
  pub valid : Bool
  pub score : F
  pub reason_codes : List Reason

-- The loop over the required fields: one code for each that is missing.
missing_fields : {F : Type 0} → Map (Json F) → List String → List Reason
missing_fields payload [] = []
missing_fields payload (f ∷ fs) =
    let rest = missing_fields payload fs in
    elim (lookup f payload) [ none ↦ Reason.missing_required_field ∷ rest | some v ↦ rest ]

answer_reasons : {F : Type 0} → Option (Json F) → List Reason
answer_reasons none = []
answer_reasons (some (Json.string s)) =
    if codes_eq (trim_space (codes s)) [] then Reason.empty_answer ∷ [] else []
answer_reasons (some _) = Reason.empty_answer ∷ []

module _ {F : Type 0} ⦃fl : Float64 F⦄ where
  unfoldable pub default_contract : Contract F
  default_contract = record {
    required_fields = "answer" ∷ "confidence" ∷ [];
    min_confidence = lit 70 2;
    max_content_bytes = 32000;
  }

  confidence_reasons : Contract F → Option (Json F) → List Reason
  confidence_reasons c none = []
  confidence_reasons c (some (Json.number v)) =
      if flt v (lit 0 0) || flt (lit 1 0) v
      then Reason.confidence_out_of_range ∷ []
      else if flt v c.min_confidence
      then Reason.confidence_too_low ∷ []
      else []
  confidence_reasons c (some _) = Reason.invalid_confidence_type ∷ []

  -- The variable `confidence`, and the score of an invalid response that has every field.
  confidence_of : Option (Json F) → F
  confidence_of (some (Json.number v)) = v
  confidence_of _ = lit 0 0

  partial_score : Option (Json F) → F
  partial_score (some (Json.number v)) =
      if fle (lit 0 0) v && fle v (lit 1 0) then fmul v (lit 5 1) else lit 2 1
  partial_score _ = lit 2 1

  abbrev invalid : F → List Reason → Result F
  invalid score rs = record { valid = false; score = score; reason_codes = rs }

  full_score : F → F
  full_score c =
      let s = if flt c (lit 0 0) then lit 7 1 else c in if flt (lit 1 0) s then lit 1 0 else s

  finish : Option (Json F) → List Reason → Result F
  unfolding confidence_of full_score partial_score
  finish conf [] = record {
    valid = true;
    score = full_score (confidence_of conf);
    reason_codes = [];
  }
  finish conf (r ∷ rs) = invalid (partial_score conf) (r ∷ rs)

  check_fields : Contract F → Map (Json F) → List Reason → Result F
  unfolding answer_reasons confidence_reasons finish
  check_fields c payload [] = finish (lookup "confidence" payload) (
      answer_reasons (lookup "answer" payload)
      ++ confidence_reasons c (lookup "confidence" payload))
  check_fields c payload (r ∷ rs) = invalid (lit 1 1) (r ∷ rs)

  check_payload : Contract F → Option (Map (Json F)) → Result F
  unfolding check_fields missing_fields
  check_payload c none = invalid (lit 0 0) (Reason.invalid_json ∷ [])
  check_payload c (some payload) = check_fields c payload (missing_fields payload c.required_fields)

  unfoldable pub validate : Decoder F → String → Contract F → Result F
  unfolding check_payload
  validate decode content c =
      let trimmed = trim_space (codes content) in
      if codes_eq trimmed []
      then invalid (lit 0 0) (Reason.empty_content ∷ [])
      else if ltb c.max_content_bytes (byte_length trimmed)
      then invalid (lit 0 0) (Reason.response_too_long ∷ [])
      else check_payload c (decode trimmed)
