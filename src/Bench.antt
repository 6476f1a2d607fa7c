-- ===== src/Bench.antt =====
-- cmd/signalmesh-bench/main.go: the results of the load generator and their counts. The two Go
-- maps of counts are functions that are 0 where there is no entry.
pub mod Workers
pub mod Moves
pub mod Totals
pub mod Kept
pub mod Progress
pub mod Summary
use signalmesh.Base.{
  ℕ, ◌+◌, Bool, true, false, not, ◌&&◌, Option, none, some, List, [], ◌∷◌, ◌++◌, String, str_eq,
  leb, ltb, if◌then◌else◌,
}
use signalmesh.Base.Clock.{Duration}

-- What a worker keeps of one request.
pub record Result : Type 0 where
  pub status : ℕ
  pub provider : String
  pub latency : Duration
  pub err : Option String

-- What is counted of the results.
pub record Tally : Type 0 where
  pub success : ℕ
  pub failed : ℕ
  pub status_counts : ℕ → ℕ
  pub provider_counts : String → ℕ
  pub latencies : List Duration

abbrev pub no_results : Tally
no_results = record {
  success = 0;
  failed = 0;
  status_counts = λ code. 0;
  provider_counts = λ name. 0;
  latencies = [];
}

abbrev pub is_number : ℕ → ℕ → Bool
is_number a b = leb a b && leb b a

abbrev pub one_if : Bool → ℕ
one_if b = if b then 1 else 0

abbrev pub is_2xx : ℕ → Bool
is_2xx code = leb 200 code && ltb code 300

abbrev pub or_unknown : String → String
or_unknown provider = if str_eq provider "" then "unknown" else provider

-- One round of the loop over the results.
abbrev pub count_error : Tally → Tally
count_error t = record t {
  failed = t.failed + 1;
  status_counts = λ code. t.status_counts code + one_if (is_number 0 code);
}

abbrev pub count_answer : Tally → Result → Tally
count_answer t r = record t {
  success = t.success + one_if (is_2xx r.status);
  failed = t.failed + one_if (not (is_2xx r.status));
  status_counts = λ code. t.status_counts code + one_if (is_number r.status code);
  provider_counts = λ name. t.provider_counts name + one_if (str_eq (or_unknown r.provider) name);
  latencies = t.latencies ++ (r.latency ∷ []);
}

abbrev pub count_by : Tally → Result → Option String → Tally
count_by t r (some e) = count_error t
count_by t r none = count_answer t r

unfoldable pub count_results : Tally → List Result → Tally
count_results t [] = t
count_results t (r ∷ rs) = count_results (count_by t r r.err) rs
