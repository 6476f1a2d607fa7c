-- ===== src/Metrics/Format.antt =====
-- The text of the metrics keeps the format that Prometheus reads.
use signalmesh.Base.{
  ℕ, ◌≡◌, ◌∙◌, refl, ap, Bool, true, false, not, ◌&&◌, ◌||◌, Option, none, some, List, [], ◌∷◌,
  ◌++◌, String, All, str_eq, if◌then◌else◌,
}
use signalmesh.Base.Int.{ℤ, pos}
use signalmesh.Base.Clock.{Time, Duration, since}
use signalmesh.Base.Float.{Float64}
use signalmesh.Base.Maps.{Map, str_eq_refl}
use signalmesh.Metrics.{Metrics}
use signalmesh.Metrics.Percentiles.{IsRanked, percentiles-IsOrdered}
use signalmesh.Metrics.Reports.{
  Printer, ProviderOrder, Line, provider_samples, total_lines, gauge_lines, all_provider_lines,
  exposition,
}

-- What a reader of the format has just seen: nothing, the HELP of a name, or its TYPE.
pub data Seen : Type 0 where
  nothing : Seen
  described typed : String → Seen

abbrev pub is_kind : String → Bool
is_kind word = str_eq word "counter" || str_eq word "gauge"

-- The TYPE of a name follows its HELP, and its samples follow its TYPE.
abbrev pub reads : Seen → List Line → Bool
reads seen [] = true
reads seen (Line.help name text ∷ ls) = reads (Seen.described name) ls
reads (Seen.described n) (Line.kind name word ∷ ls) =
    str_eq n name && is_kind word && reads (Seen.typed n) ls
reads (Seen.typed n) (Line.sample name provider value ∷ ls) =
    str_eq n name && reads (Seen.typed n) ls
reads seen (Line.blank ∷ ls) = reads Seen.nothing ls
reads seen (l ∷ ls) = false

-- The names that are described.
abbrev pub names : List Line → List String
names [] = []
names (Line.help name text ∷ ls) = name ∷ names ls
names (l ∷ ls) = names ls

abbrev pub is_in : String → List String → Bool
is_in name [] = false
is_in name (n ∷ ns) = str_eq name n || is_in name ns

-- No name is described twice.
abbrev pub once : List String → Bool
once [] = true
once (n ∷ ns) = not (is_in n ns) && once ns

-- The value of a metric of the whole node.
abbrev pub value_of : String → List Line → Option String
value_of name [] = none
value_of name (Line.sample n none value ∷ ls) =
    let later = value_of name ls in if str_eq name n then some value else later
value_of name (l ∷ ls) = value_of name ls

-- The metrics of the whole node that count.
abbrev pub totals : Metrics → List (String × ℕ)
totals m =
    ("signalmesh_requests_total", m.requests_total)
    ∷ ("signalmesh_request_success_total", m.success_total)
    ∷ ("signalmesh_request_failure_total", m.failure_total)
    ∷ ("signalmesh_fallback_total", m.fallback_total)
    ∷ ("signalmesh_semantic_failure_total", m.semantic_failures_total)
    ∷ ("signalmesh_escalations_total", m.escalations_total)
    ∷ ("signalmesh_incidents_total", m.incidents_total)
    ∷ ("signalmesh_admission_dropped_total", m.admission_dropped_total)
    ∷ []

module _ {F : Type 0} ⦃fl : Float64 F⦄ (print : Printer F) where
  samples_read :
      (name : String) (es : Map ℕ) (rest : List Line)
      → reads (Seen.typed name) (provider_samples print name es ++ rest) ≡ reads Seen.nothing rest
  samples_read name [] rest = refl
  samples_read name (e ∷ es) rest = rw (str_eq_refl name) (samples_read name es rest)

  samples_names :
      (name : String) (es : Map ℕ) (rest : List Line)
      → names (provider_samples print name es ++ rest) ≡ names rest
  samples_names name [] rest = refl
  samples_names name (e ∷ es) rest = samples_names name es rest

  last_read :
      (name : String) (es : Map ℕ) → reads (Seen.typed name) (provider_samples print name es) ≡ true
  last_read name [] = refl
  last_read name (e ∷ es) = rw (str_eq_refl name) (last_read name es)

  last_names : (name : String) (es : Map ℕ) → names (provider_samples print name es) ≡ []
  last_names name [] = refl
  last_names name (e ∷ es) = last_names name es

  -- The lines of Prometheus are read, describe each metric once, and show the totals.
  pub record IsExposed (m : Metrics) (ls : List Line) : Type 0 where
    pub format : reads Seen.nothing ls ≡ true
    pub described_once : once (names ls) ≡ true
    pub shown : All (λ t. value_of t.0 ls ≡ some (print.integer (pos t.1))) (totals m)

  providers_read :
      (m : Metrics) (order : ProviderOrder)
      → reads Seen.nothing (all_provider_lines print m order) ≡ true
  unfolding all_provider_lines
  providers_read m order =
      samples_read "signalmesh_provider_requests_total" (order.requested m.provider_requests) _
      ∙ samples_read "signalmesh_provider_success_total" (order.succeeded m.provider_success) _
      ∙ last_read "signalmesh_provider_failure_total" (order.failed m.provider_failures)

  providers_names :
      (m : Metrics) (order : ProviderOrder)
      → names (all_provider_lines print m order)
        ≡ "signalmesh_provider_requests_total" ∷ "signalmesh_provider_success_total"
          ∷ "signalmesh_provider_failure_total" ∷ []
  unfolding all_provider_lines
  providers_names m order =
      ap (λ ns. "signalmesh_provider_requests_total" ∷ ns)
        (samples_names "signalmesh_provider_requests_total" (order.requested m.provider_requests) _
          ∙ ap (λ ns. "signalmesh_provider_success_total" ∷ ns)
              (samples_names "signalmesh_provider_success_total"
                  (order.succeeded m.provider_success) _
                ∙ ap (λ ns. "signalmesh_provider_failure_total" ∷ ns)
                    (last_names "signalmesh_provider_failure_total"
                      (order.failed m.provider_failures))))

  lines-IsExposed :
      (m : Metrics) (order : ProviderOrder) (up : Duration) (ps : ℤ × ℤ × ℤ)
      → IsExposed m
          (total_lines print m ++ (gauge_lines print up ps ++ all_provider_lines print m order))
  unfolding total_lines gauge_lines
  lines-IsExposed m order up ps = record {
    format = providers_read m order;
    described_once = rw (providers_names m order) refl;
    shown = (refl, (refl, (refl, (refl, (refl, (refl, (refl, (refl, tt))))))));
  }

  abbrev pub IsFormatted : Metrics → Option (List Line) → Type 0
  IsFormatted m none = ⊥
  IsFormatted m (some ls) = IsExposed m ls

  -- In every order of its loops Prometheus writes, without a panic, lines in which the samples of
  -- each metric follow its one HELP and its TYPE, and which show the eight counters of the node.
  pub exposition-IsFormatted :
      IsRanked F
      → (started now : Time) (m : Metrics) (order : ProviderOrder)
      → IsFormatted m (exposition print started m order now)
  unfolding exposition
  exposition-IsFormatted law started now m order =
      let ranks = percentiles-IsOrdered F law m.latencies in
      rw ranks.reported
        (lines-IsExposed m order (since now started) (ranks.p50, ranks.p95, ranks.p99))
