-- ===== src/Examples/Fallbacks.antt =====
-- An answer of the local fallback, with an encoder for the objects that occur beside it.
use mathlib.Core.Bool.{true, false}
use signalmesh.Base.{
  ℕ, Bool, ◌&&◌, ◌≤◌, ◌≡◌, refl, ap, sym, subst, inl, inr, All, Bool-cases, Option, none, some,
  List, [], ◌∷◌, String, arith, if◌then◌else◌,
}
use signalmesh.Base.Int.{ℤ, pos, negsuc}
use signalmesh.Base.Maps.{Map}
use signalmesh.Base.Text.{codes, codes_eq, trim_space, byte_length}
use signalmesh.Base.Float.{lit, flt, feq}
use signalmesh.Providers.{ModelResponse}
use signalmesh.Providers.Mock.{Generation}
use signalmesh.Providers.Local.{
  LocalProvider, LocalRound, Encoder, literal_answer, new_local_provider, local_generate,
  call_ollama, or_default_answer,
}
use signalmesh.Providers.Fallback.{IsObject, IsJson, fallback_quality}
use signalmesh.Policy.{RiskLevel, default_policy}
use signalmesh.Validator.{Json, Decoder, validate, default_contract}
use signalmesh.Examples.Cents.{Cents, cents, cents_float}
use signalmesh.Examples.Ratios.{cents_cents}
use signalmesh.Examples.Components.{refund}

-- An object with an answer and a confidence in hundredths, and its JSON text.
record Sample : Type 0 where
  answer : String
  hundredths : ℕ
  text : String

abbrev fields : String → Cents → Option (Map (Json Cents))
fields answer c = some (("answer", Json.string answer) ∷ ("confidence", Json.number c) ∷ [])

abbrev is_sample : Sample → List ℕ → Cents → Bool
is_sample s answer c = codes_eq (codes s.answer) answer && feq c (cents (pos s.hundredths))

abbrev encode_by : List Sample → Encoder Cents
encode_by [] answer c = none
encode_by (s ∷ ss) answer c =
    let rest = encode_by ss answer c in if is_sample s answer c then some s.text else rest

abbrev decode_by : List Sample → Decoder Cents
decode_by [] cs = none
decode_by (s ∷ ss) cs =
    let rest = decode_by ss cs in
    if codes_eq (codes s.text) cs then fields s.answer (cents (pos s.hundredths)) else rest

codes_eq_sound : (xs ys : List ℕ) → codes_eq xs ys ≡ true → xs ≡ ys
unfolding codes_eq
codes_eq_sound [] [] h = refl
codes_eq_sound (x ∷ xs) (y ∷ ys) h = cons (ground arith) (codes_eq_sound xs ys (ground arith))
  where
    cons : {a b : ℕ} {as' bs : List ℕ} → a ≡ b → as' ≡ bs → a ∷ as' ≡ b ∷ bs
    cons p q = cc (p, q)
codes_eq_sound [] (y ∷ ys) h = cc
codes_eq_sound (x ∷ xs) [] h = cc

number_eq : (a : ℤ) (n : ℕ) → feq (cents a) (cents (pos n)) ≡ true → a ≡ pos n
number_eq (pos m) n h = ap pos (ground arith)
number_eq (negsuc m) n h = absurd (ground arith)

some_eq : {a b : String} → some a ≡ some b → a ≡ b
some_eq q = cc

-- An encoder of samples whose texts are decoded to their fields keeps the law of encoding/json.
encode_by-exact :
    (decode : Decoder Cents) (ss : List Sample)
    → All (λ s. IsObject decode s.text s.answer (cents (pos s.hundredths))) ss
    → (answer : List ℕ) (c : Cents) (text : String) → encode_by ss answer c ≡ some text
    → (s : String) × (codes s ≡ answer) × IsObject decode text s c
encode_by-exact decode [] h answer c text e = absurd cc
encode_by-exact decode (s ∷ ss) h answer c text e = elim (Bool-cases (is_sample s answer c)) [
  | inl found ↦
      let same : s.text ≡ text = some_eq (ground (arith, e, found)) in
      (
        s.answer,
        codes_eq_sound (codes s.answer) answer (ground (arith, found)),
        subst (λ t. IsObject decode t s.answer c) same
            (subst (IsObject decode s.text s.answer)
              (sym (ap cents (number_eq c.hundredths s.hundredths (ground (arith, found))))) h.0),
      )
  | inr other ↦ encode_by-exact decode ss h.1 answer c text (ground (arith, e, other))
]

-- What Ollama says, the static answer to the same task, and the answer of the literal.
abbrev samples : List Sample
samples =
    record {
      answer = "Refund order 7 \"in full\".";
      hundredths = 75;
      text = "{\"answer\":\"Refund order 7 \\\"in full\\\".\",\"confidence\":0.75}";
    }
    ∷ record {
      answer = "Local emergency fallback for task refund";
      hundredths = 72;
      text = "{\"answer\":\"Local emergency fallback for task refund\",\"confidence\":0.72}";
    }
    ∷ record { answer = "Local fallback response"; hundredths = 72; text = literal_answer }
    ∷ []

abbrev encode : Encoder Cents
encode = encode_by samples

abbrev decode : Decoder Cents
decode = decode_by samples

json : IsJson encode decode
unfolding codes_eq trim_space
json = record {
  exact = encode_by-exact decode samples (
    record { filled = refl; decoded = refl },
    (record { filled = refl; decoded = refl }, (record { filled = refl; decoded = refl }, tt)),
  );
  literal = record { filled = refl; decoded = refl };
}

abbrev local_provider : LocalProvider
local_provider = new_local_provider "local-fallback" "http://localhost:11434" ""

abbrev round : LocalRound Cents
round = record {
  ask = λ messages t. some (codes " Refund order 7 \"in full\". ");
  context_failed = false;
  done_first = λ d. false;
  start = 0;
  recorded = 50000000;
  answered = 51000000;
}

abbrev answered : ModelResponse Cents
answered = record {
  provider_name = "local-fallback";
  model = "llama3.2:1b";
  content = "{\"answer\":\"Refund order 7 \\\"in full\\\".\",\"confidence\":0.75}";
  finish_reason = "stop";
  input_tokens = pos 5;
  output_tokens = pos 25;
  latency_ms = pos 51;
  estimated_cost = lit 0 0;
}

produced : (local_generate encode local_provider refund round).1 ≡ Generation.produced answered
unfolding local_generate new_local_provider call_ollama or_default_answer trim_space codes_eq
produced = refl

fits : byte_length (trim_space (codes answered.content)) ≤ 32000
unfolding byte_length trim_space
fits = omega arith

fallback_quality_example :
    let v = validate decode answered.content default_contract in
    (v.valid ≡ true)
    × (flt v.score (default_policy {F = Cents} RiskLevel.risk_low).minimum_quality_score ≡ false)
    × (flt v.score (default_policy {F = Cents} RiskLevel.risk_medium).minimum_quality_score ≡ true)
    × ((default_policy {F = Cents} RiskLevel.risk_medium).allow_local_fallback ≡ true)
fallback_quality_example =
    fallback_quality encode decode json cents_cents local_provider refund round answered produced
      fits
