-- ===== src/Bench/Totals.antt =====
-- The counts of a run of the load generator.
use mathlib.Core.List.{Permᴰ}
use signalmesh.Base.{
  ℕ, ◌+◌, ◌≡◌, refl, Bool, true, false, not, ◌&&◌, Option, none, some, List, [], ◌∷◌, String,
  str_eq, length, length-append, arith, if◌then◌else◌,
}
use signalmesh.Base.Perms.{count_of, count_of-perm}
use signalmesh.Bench.{
  Result, Tally, no_results, is_number, one_if, is_2xx, or_unknown, count_by, count_results,
}

abbrev got_answer : Option String → Bool
got_answer none = true
got_answer (some e) = false

-- The request was answered.
abbrev is_answered : Result → Bool
is_answered r = got_answer r.err

abbrev is_success : Result → Bool
is_success r = is_answered r && is_2xx r.status

-- The code that a result counts for, 0 without an answer.
abbrev has_code : ℕ → Result → Bool
has_code code r = is_number (if is_answered r then r.status else 0) code

abbrev is_from : String → Result → Bool
is_from name r = is_answered r && str_eq (or_unknown r.provider) name

-- What a count is after some results, from what it is after one.
counted :
    (count : Tally → ℕ) (test : Result → Bool)
    (one : (t : Tally) (r : Result) → count (count_by t r r.err) ≡ count t + one_if (test r))
    (t : Tally) (rs : List Result)
    → count (count_results t rs) ≡ count t + count_of test rs
unfolding count_results count_of
counted count test one t [] = omega arith
counted count test one t (r ∷ rs) =
    ground (arith, counted count test one (count_by t r r.err) rs, one t r)

-- A count that starts at 0, of results that have been kept in some order.
counted_of :
    (rs kept : List Result) (count : Tally → ℕ) (test : Result → Bool)
    (one : (t : Tally) (r : Result) → count (count_by t r r.err) ≡ count t + one_if (test r))
    (same : (p : Result → Bool) → count_of p kept ≡ count_of p rs)
    → count no_results ≡ 0
    → count (count_results no_results kept) ≡ count_of test rs
counted_of rs kept count test one same zero =
    omega (arith, counted count test one no_results kept, zero, same test)

-- The counts after results, whichever order they have been kept in.
pub record IsCount (rs : List Result) (t : Tally) : Type 0 where
  pub successes : t.success ≡ count_of is_success rs
  pub failures : t.failed ≡ count_of (λ r. not (is_success r)) rs
  pub codes : (code : ℕ) → t.status_counts code ≡ count_of (has_code code) rs
  pub names : (name : String) → t.provider_counts name ≡ count_of (is_from name) rs
  pub measured : length t.latencies ≡ count_of is_answered rs

success_one :
    (t : Tally) (r : Result) (e : Option String)
    → (count_by t r e).success ≡ t.success + one_if (got_answer e && is_2xx r.status)
success_one t r none = refl
success_one t r (some e) = omega arith

failed_one :
    (t : Tally) (r : Result) (e : Option String)
    → (count_by t r e).failed ≡ t.failed + one_if (not (got_answer e && is_2xx r.status))
failed_one t r none = refl
failed_one t r (some e) = refl

code_one :
    (code : ℕ) (t : Tally) (r : Result) (e : Option String)
    → (count_by t r e).status_counts code
      ≡ t.status_counts code + one_if (is_number (if got_answer e then r.status else 0) code)
code_one code t r none = refl
code_one code t r (some e) = refl

name_one :
    (name : String) (t : Tally) (r : Result) (e : Option String)
    → (count_by t r e).provider_counts name
      ≡ t.provider_counts name + one_if (got_answer e && str_eq (or_unknown r.provider) name)
name_one name t r none = refl
name_one name t r (some e) = omega arith

latency_one :
    (t : Tally) (r : Result) (e : Option String)
    → length (count_by t r e).latencies ≡ length t.latencies + one_if (got_answer e)
latency_one t r none = length-append t.latencies (r.latency ∷ [])
latency_one t r (some e) = omega arith

-- Results that any test passes as often have the same counts.
pub same-IsCount :
    (rs kept : List Result)
    → ((p : Result → Bool) → count_of p kept ≡ count_of p rs)
    → IsCount rs (count_results no_results kept)
same-IsCount rs kept same = record {
  successes =
      counted_of rs kept (λ t. t.success) is_success (λ t r. success_one t r r.err) same refl;
  failures =
      counted_of rs kept (λ t. t.failed) (λ r. not (is_success r)) (λ t r. failed_one t r r.err)
        same refl;
  codes = λ code.
      counted_of rs kept (λ t. t.status_counts code) (has_code code)
        (λ t r. code_one code t r r.err) same refl;
  names = λ name.
      counted_of rs kept (λ t. t.provider_counts name) (is_from name)
        (λ t r. name_one name t r r.err) same refl;
  measured =
      counted_of rs kept (λ t. length t.latencies) is_answered (λ t r. latency_one t r r.err) same
        refl;
}

-- Whichever order the workers keep their results in, the run counts each result once as a success
-- or a failure, once under its status, under its provider if it is answered, and keeps a latency
-- for each answer.
counts-IsCount :
    (rs kept : List Result) → Permᴰ kept rs → IsCount rs (count_results no_results kept)
counts-IsCount rs kept order = same-IsCount rs kept (λ p. count_of-perm p order)
