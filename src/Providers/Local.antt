-- ===== src/Providers/Local.antt =====
-- services/signalmesh-node/internal/providers/local.go: the local fallback. The HTTP exchange with
-- Ollama and its decoding are `ask`, json.Marshal is `encode`; texts are given by their code points.
use mathlib.Core.Option.{map as option_map}
use signalmesh.Base.{
  ℕ, ◌*◌, Bool, true, false, Option, none, some, List, [], ◌∷◌, ◌++◌, String, length, str_eq,
  if◌then◌else◌,
}
use signalmesh.Base.Int.{pos}
use signalmesh.Base.Text.{codes, codes_eq, trim_space}
use signalmesh.Base.Clock.{Time, Duration, millisecond, since, milliseconds}
use signalmesh.Base.Float.{Float64, lit}
use signalmesh.Providers.{ModelRequest, ModelResponse, Message, ProviderHealth}
use signalmesh.Providers.Mock.{Counters, Generation, no_counters, record_request, health_report}

pub record LocalProvider : Type 0 where
  pub name : String
  pub url : String
  pub model : String
  pub counters : Counters

-- What the outside gives to one call. `ask` is the request to Ollama with the temperature: the field
-- `content` of the message in its answer, or `none` for an error.
pub record LocalRound (F : Type 0) : Type 0 where
  pub ask : List Message → F → Option (List ℕ)
  pub context_failed : Bool
  pub done_first : Duration → Bool
  pub start : Time
  pub recorded : Time
  pub answered : Time

-- The URL and the model are trimmed texts of the environment.
unfoldable pub new_local_provider : String → String → String → LocalProvider
unfolding no_counters
new_local_provider name url model = record {
  name = name;
  url = url;
  model = if str_eq model "" then "llama3.2:1b" else model;
  counters = no_counters;
}

unfoldable pub or_default_answer : List ℕ → List ℕ
or_default_answer answer = if codes_eq answer [] then codes "Local fallback response" else answer

or_default_messages : List Message → List Message
or_default_messages [] =
    record { role = "user"; content = "Provide a short emergency fallback answer." } ∷ []
or_default_messages (m ∷ ms) = m ∷ ms

-- `json.Marshal` of an object with the fields `answer` and `confidence`.
abbrev pub Encoder : Type 0 → Type 0
Encoder F = List ℕ → F → Option String

abbrev pub literal_answer : String
literal_answer = "{\"answer\":\"Local fallback response\",\"confidence\":0.72}"

abbrev pub or_literal : Option String → String
or_literal none = literal_answer
or_literal (some text) = text

module _ {F : Type 0} ⦃fl : Float64 F⦄ where
  unfoldable pub call_ollama : ModelRequest F → LocalRound F → Option (List ℕ)
  unfolding or_default_answer or_default_messages
  call_ollama req r =
      option_map (λ content. or_default_answer (trim_space content))
        (r.ask (or_default_messages req.messages) req.temperature)

  unfoldable pub wrap_answer : Encoder F → List ℕ → F → String
  wrap_answer encode answer confidence = or_literal (encode answer confidence)

  unfoldable pub static_content : Encoder F → String → F → String
  unfolding wrap_answer
  static_content encode task_type confidence =
      wrap_answer encode (codes "Local emergency fallback for task " ++ codes task_type) confidence

  unfoldable pub build_response :
      LocalProvider → ModelRequest F → String → Duration → ModelResponse F
  build_response p req content latency = record {
    provider_name = p.name;
    model = p.model;
    content = content;
    finish_reason = "stop";
    input_tokens = pos (length req.messages * 5);
    output_tokens = pos 25;
    latency_ms = milliseconds latency;
    estimated_cost = lit 0 0;
  }

  -- The ends of a call: a response is recorded and then built.
  unfoldable pub answer_with :
      LocalProvider → ModelRequest F → LocalRound F → String → LocalProvider × Generation F
  unfolding record_request build_response
  answer_with p req r content = (
    record p { counters = record_request p.counters true (since r.recorded r.start) },
    Generation.produced (build_response p req content (since r.answered r.start)),
  )

  unfoldable pub give_up : LocalProvider → LocalRound F → LocalProvider × Generation F
  unfolding record_request
  give_up p r = (
    record p { counters = record_request p.counters false (since r.recorded r.start) },
    Generation.context_error,
  )

  -- The deterministic answer, after a pause of some milliseconds unless the context is done first.
  unfoldable pub emergency :
      Encoder F → LocalProvider → ModelRequest F → LocalRound F → ℕ → LocalProvider × Generation F
  unfolding answer_with give_up static_content
  emergency encode p req r pause =
      if r.done_first (pos (pause * millisecond))
      then give_up p r
      else answer_with p req r (static_content encode req.task_type (lit 72 2))

  abbrev pub after_ollama :
      Encoder F
      → LocalProvider
      → ModelRequest F
      → LocalRound F
      → Option (List ℕ)
      → LocalProvider × Generation F
  after_ollama encode p req r (some answer) =
      answer_with p req r (wrap_answer encode answer (lit 75 2))
  after_ollama encode p req r none =
      if r.context_failed then give_up p r else emergency encode p req r 50

  unfoldable pub local_generate :
      Encoder F → LocalProvider → ModelRequest F → LocalRound F → LocalProvider × Generation F
  unfolding emergency call_ollama answer_with wrap_answer
  local_generate encode p req r =
      if str_eq req.task_type "probe"
      then emergency encode p req r 20
      else if str_eq p.url ""
      then emergency encode p req r 50
      else after_ollama encode p req r (call_ollama req r)

  unfoldable pub local_get_health : LocalProvider → Time → ProviderHealth F
  unfolding health_report
  local_get_health p now = health_report p.name p.counters now
