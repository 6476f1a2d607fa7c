-- ===== src/Providers/Fallback.antt =====
-- What the tests of the proxy make of the answers of the local fallback.
use mathlib.Core.Option.{map as option_map}
use signalmesh.Base.{
  Option-cases, ℕ, ◌<◌, ◌≤◌, ◌≡◌, refl, sym, ap, subst, ◌∙◌, true, false, Option, none, some, List,
  [], ◌∷◌, String, arith, Bool-cases, inl, inr, ltb, str_eq, ◌*◌,
}
use signalmesh.Base.Int.{pos}
use signalmesh.Base.Clock.{millisecond}
use signalmesh.Base.Text.{codes, codes_eq, is_space, trim_space, byte_length}
use signalmesh.Base.Blank.{ink, full_ink, ink_full, ink-trim_space}
use signalmesh.Base.Perms.{sum_of, count_of}
use signalmesh.Base.Maps.{lookup}
use signalmesh.Base.Float.{Float64, FloatCents, lit, flt}
use signalmesh.Providers.{ModelRequest, ModelResponse}
use signalmesh.Providers.Mock.{Generation}
use signalmesh.Providers.Local.{
  LocalProvider, LocalRound, Encoder, or_default_answer, call_ollama, literal_answer, wrap_answer,
  static_content, build_response, answer_with, give_up, emergency, after_ollama, local_generate,
}
use signalmesh.Validator.{Json, Decoder, validate, default_contract}
use signalmesh.Policy.{RiskLevel, default_policy}

-- What the content of a response decodes to: an answer, and a confidence.
pub record IsObject {F : Type 0} (decode : Decoder F) (text answer : String) (confidence : F)
    : Type 0 where
  pub filled : codes_eq (trim_space (codes text)) [] ≡ false
  pub decoded :
      decode (trim_space (codes text))
      ≡ some (("answer", Json.string answer) ∷ ("confidence", Json.number confidence) ∷ [])

-- What the program relies on of package encoding/json: an object that is encoded is decoded to the
-- same fields, and so is the literal that stands in when the encoding fails.
pub record IsJson {F : Type 0} ⦃fl : Float64 F⦄ (encode : Encoder F) (decode : Decoder F)
    : Type 0 where
  pub exact :
      (answer : List ℕ) (c : F) (text : String)
      → encode answer c ≡ some text
      → (s : String) × (codes s ≡ answer) × IsObject decode text s c
  pub literal : IsObject decode literal_answer "Local fallback response" (lit 72 2)

default_ink : 1 ≤ ink (codes "Local fallback response")
unfolding ink count_of sum_of is_space
default_ink = omega arith

abbrev some_ink : Option (List ℕ) → ℕ
some_ink none = 0
some_ink (some cs) = ink cs

-- An answer of Ollama is not blank once it is trimmed or replaced.
answer_ink : (content : List ℕ) → 1 ≤ ink (or_default_answer (trim_space content))
unfolding or_default_answer
answer_ink content = elim (Bool-cases (codes_eq (trim_space content) [])) [
  | inl blank ↦ rw blank default_ink
  | inr full ↦ rw full (omega (arith, full_ink content full, ink-trim_space content))
]

kept_ink :
    (o : Option (List ℕ)) (answer : List ℕ)
    → option_map (λ content. or_default_answer (trim_space content)) o ≡ some answer
    → 1 ≤ ink answer
kept_ink none answer h = cc
kept_ink (some content) answer h = subst (λ o. 1 ≤ some_ink o) h (answer_ink content)

module _ {F : Type 0} ⦃fl : Float64 F⦄ (encode : Encoder F) (decode : Decoder F)
    (json : IsJson encode decode) (cents : FloatCents F) where
  -- An answer that is not blank, with a confidence of 0.70 to 0.79.
  record IsFallback (content : String) : Type 0 where
    answer : String
    hundredths : ℕ
    solid : 1 ≤ ink (codes answer)
    low : 70 ≤ hundredths
    high : hundredths < 80
    object : IsObject decode content answer (lit hundredths 2)

  below_zero : (k : ℕ) → k ≤ 100 → flt (lit {F = F} k 2) (lit 0 0) ≡ false
  below_zero k h =
      ap (λ z. flt (lit k 2) z) cents.zero ∙ cents.lt_cents k 0 h (omega arith) ∙ ground arith

  above_one : (k : ℕ) → k ≤ 100 → flt (lit {F = F} 1 0) (lit k 2) ≡ false
  above_one k h =
      ap (λ z. flt z (lit k 2)) cents.one ∙ cents.lt_cents 100 k (omega arith) h ∙ ground (arith, h)

  scored :
      (content : String) (f : IsFallback content)
      → byte_length (trim_space (codes content)) ≤ 32000
      → validate decode content default_contract
        ≡ record { valid = true; score = lit f.hundredths 2; reason_codes = [] }
  unfolding validate default_contract lookup
  scored content f fits =
      let small : ltb 32000 (byte_length (trim_space (codes content))) ≡ false = ground arith in
      let full = ink_full (codes f.answer) f.solid in
      let positive = below_zero f.hundredths (omega (arith, f.high)) in
      let within = above_one f.hundredths (omega (arith, f.high)) in
      let confident : flt (lit {F = F} f.hundredths 2) (lit 70 2) ≡ false =
        cents.lt_cents f.hundredths 70 (omega (arith, f.high)) (omega arith)
        ∙ ground (arith, f.low) in
      rw (f.object.filled, small, f.object.decoded, full, positive, within, confident)
        (rw (positive, within) refl)

  -- What a call produced, if it did.
  abbrev AllProduced : (String → Type 0) → Generation F → Type 0
  AllProduced P (Generation.produced resp) = P resp.content
  AllProduced P Generation.context_error = Unit
  AllProduced P Generation.server_error = Unit

  wrapped :
      (a : List ℕ) (k : ℕ)
      → 1 ≤ ink a
      → 70 ≤ k
      → k < 80
      → IsFallback (wrap_answer encode a (lit k 2))
  unfolding wrap_answer
  wrapped a k solid low high = elim (Option-cases (encode a (lit k 2))) [
    | inl failed ↦ rw failed (record {
      answer = "Local fallback response";
      hundredths = 72;
      solid = default_ink;
      low = omega arith;
      high = omega arith;
      object = json.literal;
    })
    | inr (text, e) ↦
        let (s, same, object) = json.exact a (lit k 2) text e in
        rw e (record {
          answer = s;
          hundredths = k;
          solid = subst (λ cs. 1 ≤ ink cs) (sym same) solid;
          low = low;
          high = high;
          object = object;
        })
  ]

  static : (task : String) → IsFallback (static_content encode task (lit 72 2))
  unfolding static_content ink count_of sum_of is_space
  static task = wrapped _ 72 (omega arith) (omega arith) (omega arith)

  AllProduced-emergency :
      (p : LocalProvider) (req : ModelRequest F) (r : LocalRound F) (pause : ℕ)
      → AllProduced IsFallback (emergency encode p req r pause).1
  unfolding emergency answer_with give_up build_response
  AllProduced-emergency p req r pause =
      elim (Bool-cases (r.done_first (pos (pause * millisecond)))) [
        | inl done ↦ rw done tt
        | inr awake ↦ rw awake (static req.task_type)
      ]

  asked_ink :
      (req : ModelRequest F) (r : LocalRound F) (answer : List ℕ)
      → call_ollama req r ≡ some answer
      → 1 ≤ ink answer
  unfolding call_ollama
  asked_ink req r answer h = kept_ink (r.ask _ req.temperature) answer h

  AllProduced-after_ollama :
      (p : LocalProvider) (req : ModelRequest F) (r : LocalRound F) (answer : Option (List ℕ))
      → call_ollama req r ≡ answer
      → AllProduced IsFallback (after_ollama encode p req r answer).1
  unfolding answer_with give_up build_response
  AllProduced-after_ollama p req r (some answer) e =
      wrapped answer 75 (asked_ink req r answer e) (omega arith) (omega arith)
  AllProduced-after_ollama p req r none e = elim (Bool-cases r.context_failed) [
    | inl failed ↦ simp failed tt
    | inr alive ↦ simp alive (AllProduced-emergency p req r 50)
  ]

  AllProduced-local_generate :
      (p : LocalProvider) (req : ModelRequest F) (r : LocalRound F)
      → AllProduced IsFallback (local_generate encode p req r).1
  unfolding local_generate
  AllProduced-local_generate p req r = elim (Bool-cases (str_eq req.task_type "probe")) [
    | inl probe ↦ rw probe (AllProduced-emergency p req r 20)
    | inr task ↦ elim (Bool-cases (str_eq p.url "")) [
      | inl alone ↦ rw (task, alone) (AllProduced-emergency p req r 50)
      | inr served ↦ rw (task, served) (AllProduced-after_ollama p req r (call_ollama req r) refl)
    ]
  ]

  -- The content of every response of the local provider, if it is no longer than 32000 bytes, meets
  -- the contract with a score that passes the default minimum of low risk and fails that of medium
  -- risk, for which the default policy allows the fallback.
  pub fallback_quality :
      (p : LocalProvider) (req : ModelRequest F) (r : LocalRound F) (resp : ModelResponse F)
      → (local_generate encode p req r).1 ≡ Generation.produced resp
      → byte_length (trim_space (codes resp.content)) ≤ 32000
      → let v = validate decode resp.content default_contract in
        (v.valid ≡ true)
        × (flt v.score (default_policy {F = F} RiskLevel.risk_low).minimum_quality_score ≡ false)
        × (flt v.score (default_policy {F = F} RiskLevel.risk_medium).minimum_quality_score ≡ true)
        × ((default_policy {F = F} RiskLevel.risk_medium).allow_local_fallback ≡ true)
  unfolding default_policy
  fallback_quality p req r resp e fits =
      let f : IsFallback resp.content =
        subst (AllProduced IsFallback) e (AllProduced-local_generate p req r) in
      rw (scored resp.content f fits) (
        refl,
        cents.lt_cents f.hundredths 70 (omega (arith, f.high)) (omega arith)
            ∙ ground (arith, f.low),
        cents.lt_cents f.hundredths 80 (omega (arith, f.high)) (omega arith)
            ∙ ground (arith, f.high),
        refl,
      )
