-- ===== src/Metrics/Exposed.antt =====
-- The snapshot is taken without a panic, and the text of the metrics keeps the format of Prometheus.
use mathlib.Core.List.{Permᴰ}
use signalmesh.Base.{
  ℕ, ◌+◌, ◌≡◌, ◌∙◌, refl, ap, Bool, true, false, not, Option, none, some, List, [], ◌∷◌, String,
  All, arith, map, str_eq, eq_iff, ◌>>=◌, Bool-cases, Option-cases, inl, inr,
}
use signalmesh.Base.Perms.{All-perm}
use signalmesh.Base.Int.{ℤ, ◌≤ℤ◌}
use signalmesh.Base.Clock.{Time, Duration, since}
use signalmesh.Base.Float.{Float64}
use signalmesh.Base.Maps.{Map, lookup, insert, lookup-insert, str_eq_refl}
use signalmesh.DecisionLog.{DecisionLog}
use signalmesh.Metrics.{
  Metrics, new_metrics, count_if, counter, record_provider_outcome, record_request, count_reasons,
  is_success, status_of, Served, DecisionRecord, wrap,
}
use signalmesh.Metrics.Counting.{wrap_all, wrap_all-IsConsistent}
use signalmesh.Metrics.Percentiles.{IsRanked, percentiles-IsOrdered}
use signalmesh.Metrics.Reports.{Printer, ProviderOrder, Outcome, Snapshot, outcomes, snapshot}

module _ {V : Type 0} where
  -- Each entry of a map is the one that is read for its key.
  abbrev IsRead : Map V → Map V → Type 0
  IsRead m = All (λ e. lookup e.0 m ≡ some e.1)

  -- A new entry, and those of other keys.
  insert-All :
      (P : String × V → Type 0) (k : String) (v : V) (m : Map V)
      → P (k, v)
      → All (λ e. str_eq k e.0 ≡ false → P e) m
      → All P (insert k v m)
  unfolding insert
  insert-All P k v [] new old = (new, tt)
  insert-All P k v (e ∷ rest) new old = elim (Bool-cases (str_eq e.0 k)) [
    | inl same ↦ rw same (insert-All P k v rest new old.1)
    | inr other ↦
        rw other
          (old.0 (ground (arith, eq_iff e.0 k, eq_iff k e.0)), insert-All P k v rest new old.1)
  ]

  kept_read :
      (k : String) (v : V) (m es : Map V)
      → IsRead m es
      → All (λ e. str_eq k e.0 ≡ false → lookup e.0 (insert k v m) ≡ some e.1) es
  kept_read k v m [] h = tt
  kept_read k v m (e ∷ es) h =
      ((λ other. lookup-insert k e.0 v m ∙ rw other h.0), kept_read k v m es h.1)

  insert-IsRead :
      (k : String) (v : V) (m : Map V) → IsRead m m → IsRead (insert k v m) (insert k v m)
  insert-IsRead k v m h =
      insert-All _ k v m (lookup-insert k k v m ∙ rw (str_eq_refl k) refl) (kept_read k v m m h)

-- A counter is there.
abbrev is_there : Option ℕ → Bool
is_there none = false
is_there (some n) = true

-- The three maps have the same keys, once each.
record IsKeyed (m : Metrics) : Type 0 where
  read : IsRead m.provider_requests m.provider_requests
  success :
      (p : String)
      → is_there (lookup p m.provider_success) ≡ is_there (lookup p m.provider_requests)
  failures :
      (p : String)
      → is_there (lookup p m.provider_failures) ≡ is_there (lookup p m.provider_requests)

outcome-IsKeyed :
    (m : Metrics) (p : String) (success : Bool)
    → IsKeyed m
    → IsKeyed (record_provider_outcome m p success)
unfolding record_provider_outcome
outcome-IsKeyed m p success h = elim (Bool-cases (str_eq p "")) [
  | inl unnamed ↦ rw unnamed h
  | inr named ↦ rw named (
      let all =
        λ (q : String). lookup-insert p q (counter p m.provider_requests + 1) m.provider_requests in
      let good = λ (q : String).
        lookup-insert p q (count_if success (counter p m.provider_success)) m.provider_success in
      let bad = λ (q : String).
        lookup-insert p q (count_if (not success) (counter p m.provider_failures))
          m.provider_failures in
      record {
        read = insert-IsRead p _ m.provider_requests h.read;
        success = λ q. ground (arith, all q, good q, h.success q);
        failures = λ q. ground (arith, all q, bad q, h.failures q);
      })
]

wrap-IsKeyed :
    (text : ℕ → String) (m : Metrics) (d : DecisionLog DecisionRecord) (s : Served)
    → IsKeyed m
    → IsKeyed (wrap text (m, d) s).0
unfolding wrap record_request count_reasons
wrap-IsKeyed text m d s h = elim (Bool-cases (str_eq s.path "/v1/chat/completions")) [
  | inr other ↦ rw other h
  | inl chat ↦ rw chat (
      let k =
        outcome-IsKeyed
          (record_request m (since s.ended s.start) (is_success (status_of s))
            (str_eq s.fallback "true"))
          s.provider (is_success (status_of s))
          (record { read = h.read; success = h.success; failures = h.failures }) in
      record { read = k.read; success = k.success; failures = k.failures })
]

all-IsKeyed :
    (text : ℕ → String) (ss : List Served) (m : Metrics) (d : DecisionLog DecisionRecord)
    → IsKeyed m
    → IsKeyed (wrap_all text (m, d) ss).0
unfolding wrap_all
all-IsKeyed text [] m d h = h
all-IsKeyed text (s ∷ ss) m d h =
    let next = wrap text (m, d) s in all-IsKeyed text ss next.0 next.1 (wrap-IsKeyed text m d s h)

new-IsKeyed : IsKeyed new_metrics
unfolding new_metrics
new-IsKeyed = record { read = tt; success = λ p. refl; failures = λ p. refl }

-- What a snapshot says of the providers, in the order of its loop.
abbrev pub IsReported : Metrics → Map ℕ → Option (Map Outcome) → Type 0
IsReported m es none = ⊥
IsReported m es (some os) =
    (map (λ o. o.0) os ≡ map (λ e. e.0) es)
    × All
        (λ o.
          (o.1.success + o.1.failures ≡ o.1.requests)
          × (lookup o.0 m.provider_requests ≡ some o.1.requests))
        os

there :
    (p : String) (n : ℕ) (m k : Map ℕ)
    → lookup p m ≡ some n
    → is_there (lookup p k) ≡ is_there (lookup p m)
    → is_there (lookup p k) ≡ true
there p n m k e h = h ∙ ap is_there e

absent : (o : Option ℕ) → o ≡ none → is_there o ≡ true → ⊥
absent o e h = cc

outcomes-IsReported :
    (m : Metrics) (es : Map ℕ)
    → IsKeyed m
    → ((p : String)
        → counter p m.provider_success + counter p m.provider_failures
          ≡ counter p m.provider_requests)
    → IsRead m.provider_requests es
    → IsReported m es (outcomes m es)
unfolding outcomes
outcomes-IsReported m [] h sums read = (refl, tt)
outcomes-IsReported m ((p, n) ∷ es) h sums read =
    let good = there p n m.provider_requests m.provider_success read.0 (h.success p) in
    let bad = there p n m.provider_requests m.provider_failures read.0 (h.failures p) in
    elim (Option-cases (lookup p m.provider_success)) [
      | inl e ↦ absurd (absent _ e good)
      | inr (s, es_) ↦ elim (Option-cases (lookup p m.provider_failures)) [
        | inl e ↦ absurd (absent _ e bad)
        | inr (f, ef) ↦
            rw (es_, ef)
              (with_entry m p n s f es (outcomes m es) (ground (arith, sums p, es_, ef, read.0))
                read.0 (outcomes-IsReported m es h sums read.1))
      ]
    ]
  where
    with_entry :
        (m : Metrics) (p : String) (n s f : ℕ) (es : Map ℕ) (o : Option (Map Outcome))
        → s + f ≡ n
        → lookup p m.provider_requests ≡ some n
        → IsReported m es o
        → IsReported m
            ((p, n) ∷ es)
            (do others ← o; some ((p, record { requests = n; success = s; failures = f }) ∷ others))
    with_entry m p n s f es none sum e h = absurd h
    with_entry m p n s f es (some os) sum e h = (ap (λ names. p ∷ names) h.0, ((sum, e), h.1))

module _ {F : Type 0} ⦃fl : Float64 F⦄ where
  -- A snapshot: the counters as they are, the percentiles in order, and the providers.
  abbrev pub IsTaken : Metrics → Map ℕ → Option (Snapshot F) → Type 0
  IsTaken m es none = ⊥
  IsTaken m es (some s) =
      (s.totals ≡ m)
      × (s.p50_ms ≤ℤ s.p95_ms)
      × (s.p95_ms ≤ℤ s.p99_ms)
      × IsReported m es (some s.provider_outcomes)

  with_outcomes :
      (print : Printer F) (node : String) (up : Duration) (m : Metrics) (es : Map ℕ) (a b c : ℤ)
      (o : Option (Map Outcome))
      → a ≤ℤ b
      → b ≤ℤ c
      → IsReported m es o
      → IsTaken m es (do
        found ← o
        some (record {
          node_id = node;
          uptime_seconds = print.seconds up;
          totals = m;
          p50_ms = a;
          p95_ms = b;
          p99_ms = c;
          provider_outcomes = found;
        }))
  with_outcomes print node up m es a b c none ab bc h = absurd h
  with_outcomes print node up m es a b c (some os) ab bc h = (refl, ab, bc, h)

  -- After any requests and in every order of its loop, a snapshot is taken without a panic: it holds
  -- the counters as they are, p50, p95 and p99 in this order, and for each provider of the loop its
  -- requests, which are its successes and failures together.
  pub snapshot-IsTaken :
      IsRanked F
      → (text : ℕ → String) (ss : List Served) (d : DecisionLog DecisionRecord) (print : Printer F)
        (node : String) (started now : Time) (order : ProviderOrder)
      → ((es : Map ℕ) → Permᴰ (order.requested es) es)
      → let m = (wrap_all text (new_metrics, d) ss).0 in
        IsTaken m (order.requested m.provider_requests) (snapshot print node started m order now)
  unfolding snapshot
  snapshot-IsTaken law text ss d print node started now order every =
      let m = (wrap_all text (new_metrics, d) ss).0 in
      let keyed = all-IsKeyed text ss new_metrics d new-IsKeyed in
      let books = wrap_all-IsConsistent text ss d in
      let ranks = percentiles-IsOrdered F law m.latencies in
      let es = order.requested m.provider_requests in
      rw ranks.reported (
        with_outcomes print node (since now started) m es ranks.p50 ranks.p95 ranks.p99
          (outcomes m es) ranks.half ranks.most
          (outcomes-IsReported m es keyed books.providers
            (All-perm _ (every m.provider_requests) keyed.read)))
