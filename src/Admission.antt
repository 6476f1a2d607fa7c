-- ===== src/Admission.antt =====
-- services/signalmesh-node/internal/admission/admission.go: bulkheads with bounded queues. No mutex
-- guards `Acquire` and `Release`, so each access of an atomic or a channel is a step of its own, and
-- the steps of concurrent requests interleave in any order. `Status` only reads.
pub mod Steps
pub mod Bulkheads
pub mod Isolation
pub mod Passage
use signalmesh.Base.{
  ℕ, zero, suc, ◌+◌, ◌-◌, Bool, true, false, not, ◌&&◌, ◌||◌, List, [], ◌∷◌, if◌then◌else◌,
}
use signalmesh.Base.Int.{ℤ, pos, negsuc, ltb_ℤ, leb_ℤ, add_ℤ}
use signalmesh.Base.Text.{codes, codes_eq, to_lower, trim_space, contains_any}
use signalmesh.Providers.{ModelRequest}
use signalmesh.Policy.{Policy, is_high}
use signalmesh.Reasons.{Reason}

-- `Classify` gives no other class.
pub data Class : Type 0 where
  critical normal background : Class

abbrev pub is_critical : Class → Bool
is_critical Class.critical = true
is_critical _ = false

abbrev pub same : Class → Class → Bool
same Class.critical Class.critical = true
same Class.normal Class.normal = true
same Class.background Class.background = true
same _ _ = false

pub record Config : Type 0 where
  pub concurrency : ℤ
  pub max_queue : ℤ

-- `sem` is the number of tokens in the channel, whose capacity is the concurrency.
pub record ClassState : Type 0 where
  pub cfg : Config
  pub sem : ℕ
  pub waiters : ℤ
  pub admitted : ℕ
  pub dropped : ℕ

pub record Manager : Type 0 where
  pub global_max : ℤ
  pub total_active : ℤ
  pub total_dropped : ℕ
  pub classes : Class → ClassState

unfoldable pub normalize_config : Config → Config
normalize_config cfg = record {
  concurrency = if leb_ℤ cfg.concurrency (pos 0) then pos 1 else cfg.concurrency;
  max_queue = if ltb_ℤ cfg.max_queue (pos 0) then pos 0 else cfg.max_queue;
}

unfoldable pub new_class_state : Config → ClassState
unfolding normalize_config
new_class_state cfg = record {
  cfg = normalize_config cfg;
  sem = 0;
  waiters = pos 0;
  admitted = 0;
  dropped = 0;
}

abbrev pub config_for : Config → Config → Config → Class → Config
config_for c n b Class.critical = c
config_for c n b Class.normal = n
config_for c n b Class.background = b

unfoldable pub new_manager : Config → Config → Config → ℤ → Manager
unfolding new_class_state
new_manager c n b global_max = record {
  global_max = global_max;
  total_active = pos 0;
  total_dropped = 0;
  classes = λ d. new_class_state (config_for c n b d);
}

-- What `ctx.Err()` says.
pub data Ctx : Type 0 where
  alive expired canceled : Ctx

-- What a step meets: the context, and the branch that a `select` takes if both are ready.
pub record Input : Type 0 where
  pub ctx : Ctx
  pub takes_done : Bool

-- Where a request stands in `Acquire`, in the handler, or in `Release`. The Boolean says whether it
-- came through the queue, and so still has the deferred `waiters.Add(-1)` to do.
pub data Place : Type 0 where
  entering checking trying queueing counting joining waiting : Class → Place
  dropping : Class → List Reason → Place
  dropping_total : List Reason → Place
  slotted admitted : Bool → Class → Place
  leaving : Class → Place
  giving_up : Class → List Reason → Place
  holding : Class → Place
  releasing : Place
  refused : List Reason → Place
  finished : Place

-- A write to the state of one class, through its pointer.
abbrev pub put : Manager → Class → ClassState → Manager
put m c s = record m { classes = λ d. if same c d then s else m.classes d }

abbrev pub free : ClassState → Bool
free s = ltb_ℤ (pos s.sem) s.cfg.concurrency

abbrev pub take : Manager → Class → Manager
take m c = let s = m.classes c in put m c (record s { sem = s.sem + 1 })

abbrev pub add_waiters : Manager → Class → ℤ → Manager
add_waiters m c n = let s = m.classes c in put m c (record s { waiters = add_ℤ s.waiters n })

-- The reason for a context that is done.
abbrev pub ctx_reason : Ctx → List Reason
ctx_reason Ctx.canceled = Reason.admission_canceled ∷ []
ctx_reason _ = Reason.admission_timeout ∷ []

abbrev pub is_alive : Ctx → Bool
is_alive Ctx.alive = true
is_alive _ = false

-- One step of a request.
unfoldable pub advance : Input → Manager → Place → Manager × Place
advance i m (Place.entering c) =
    if ltb_ℤ (pos 0) m.global_max && not (is_critical c) && leb_ℤ m.global_max m.total_active
    then (m, Place.dropping c (Reason.global_load_shedding ∷ Reason.non_critical_traffic_shed ∷ []))
    else (m, Place.checking c)
advance i m (Place.checking c) =
    if is_alive i.ctx then (m, Place.trying c) else (m, Place.refused (ctx_reason i.ctx))
advance i m (Place.trying c) =
    if free (m.classes c) then (take m c, Place.slotted false c) else (m, Place.queueing c)
advance i m (Place.queueing c) =
    let queue = (m.classes c).cfg.max_queue in
    if leb_ℤ queue (pos 0) && leb_ℤ (pos 0) queue
    then (m, Place.dropping c (Reason.admission_queue_full ∷ []))
    else (m, Place.counting c)
advance i m (Place.counting c) =
    if leb_ℤ (m.classes c).cfg.max_queue (m.classes c).waiters
    then (m, Place.dropping c (Reason.admission_queue_full ∷ []))
    else (m, Place.joining c)
advance i m (Place.joining c) = (add_waiters m c (pos 1), Place.waiting c)
advance i m (Place.waiting c) =
    if free (m.classes c) && (is_alive i.ctx || not i.takes_done)
    then (take m c, Place.slotted true c)
    else if is_alive i.ctx
    then (m, Place.waiting c)
    else (m, Place.giving_up c (ctx_reason i.ctx))
advance i m (Place.dropping c rs) =
    let s = m.classes c in (put m c (record s { dropped = s.dropped + 1 }), Place.dropping_total rs)
advance i m (Place.dropping_total rs) =
    (record m { total_dropped = m.total_dropped + 1 }, Place.refused rs)
advance i m (Place.slotted waited c) =
    let s = m.classes c in
    (put m c (record s { admitted = s.admitted + 1 }), Place.admitted waited c)
advance i m (Place.admitted waited c) = (
  record m { total_active = add_ℤ m.total_active (pos 1) },
  if waited then Place.leaving c else Place.holding c,
)
advance i m (Place.leaving c) = (add_waiters m c (negsuc 0), Place.holding c)
advance i m (Place.giving_up c rs) = (add_waiters m c (negsuc 0), Place.refused rs)
advance i m (Place.holding c) =
    let s = m.classes c in
    if ltb_ℤ (pos 0) (pos s.sem)
    then (put m c (record s { sem = s.sem - 1 }), Place.releasing)
    else (m, Place.finished)
advance i m Place.releasing =
    (record m { total_active = add_ℤ m.total_active (negsuc 0) }, Place.finished)
advance i m (Place.refused rs) = (m, Place.refused rs)
advance i m Place.finished = (m, Place.finished)

-- One step of the request with a given number among all requests.
unfoldable pub advance_at : ℕ → Input → Manager → List Place → Manager × List Place
advance_at n i m [] = (m, [])
advance_at zero i m (p ∷ ps) = let (m', p') = advance i m p in (m', p' ∷ ps)
advance_at (suc n) i m (p ∷ ps) = let (m', ps') = advance_at n i m ps in (m', p ∷ ps')

-- An interleaving: who makes each step, and what it meets.
unfoldable pub run : Manager → List Place → List (ℕ × Input) → Manager × List Place
run m ps [] = (m, ps)
run m ps (s ∷ ss) = let (m', ps') = advance_at s.0 s.1 m ps in run m' ps' ss

-- `Classify`.
unfoldable pub classify : {F : Type 0} → ModelRequest F → Policy F → Class
unfolding to_lower trim_space codes_eq contains_any
classify req pol =
    let priority = to_lower (trim_space (codes req.priority)) in
    if codes_eq priority (codes "critical")
    then Class.critical
    else if codes_eq priority (codes "background")
    then Class.background
    else if codes_eq priority (codes "normal")
    then Class.normal
    else if is_high pol.risk_level
    then Class.critical
    else if contains_any (to_lower (trim_space (codes req.task_type))) (
        "batch" ∷ "index" ∷ "indexing" ∷ "analytics" ∷ "offline" ∷ "background" ∷ "cleanup"
        ∷ "reindex" ∷ [])
    then Class.background
    else Class.normal
