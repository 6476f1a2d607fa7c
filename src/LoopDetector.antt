-- ===== src/LoopDetector.antt =====
-- services/signalmesh-node/internal/loopdetector/loopdetector.go: repeated failures of one request
-- pattern. The mutex makes each method one step. An `*entry` is reachable from the map alone, so a
-- change through the pointer is a write of the map.
pub mod Invariant
pub mod Counting
pub mod Window
use signalmesh.Base.{
  ℕ, ◌+◌, ◌*◌, Bool, true, false, not, ◌&&◌, Option, none, some, List, [], ◌∷◌, ◌++◌, String, ltb,
  length, if◌then◌else◌,
}
use signalmesh.Base.Int.{ℤ, pos, ltb_ℤ, leb_ℤ}
use signalmesh.Base.Clock.{Time, Duration, second, since}
use signalmesh.Base.Maps.{Map, lookup, insert, delete}
use signalmesh.Base.Text.{codes, codes_eq, trim_space}
use signalmesh.Providers.{ModelRequest, Message}

pub record Entry : Type 0 where
  pub count : ℕ
  pub first_seen : Time
  pub last_seen : Time
  pub reasons : List String
  pub notified : Bool

pub record Detector : Type 0 where
  pub threshold : ℤ
  pub window : Duration
  pub entries : Map Entry

unfoldable pub new : ℤ → Duration → Detector
new threshold window = record {
  threshold = if leb_ℤ threshold (pos 0) then pos 3 else threshold;
  window = if leb_ℤ window (pos 0) then pos (60 * second) else window;
  entries = [];
}

messages_input : List Message → List ℕ
messages_input [] = []
messages_input (m ∷ ms) =
    codes "|" ++ (codes m.role ++ (codes ":" ++ (codes m.content ++ messages_input ms)))

agent_input : List ℕ → List ℕ
agent_input agent = if codes_eq agent [] then codes "anonymous" else agent

-- What `Fingerprint` writes to the hash.
unfoldable pub fingerprint_input : {F : Type 0} → ModelRequest F → List ℕ
unfolding messages_input agent_input trim_space codes_eq
fingerprint_input req =
    agent_input (trim_space (codes req.agent_id))
    ++ (codes "|"
        ++ (codes req.task_type ++ (codes "|" ++ (codes req.model ++ messages_input req.messages))))

-- The SHA-256 sum in hexadecimal digits is the parameter `digest`.
unfoldable pub fingerprint : {F : Type 0} → (List ℕ → String) → ModelRequest F → String
fingerprint digest req = digest (fingerprint_input req)

abbrev fresh : Time → Entry
fresh now = record { count = 0; first_seen = now; last_seen = now; reasons = []; notified = false }

abbrev stale : Detector → Entry → Time → Bool
stale d e now = ltb_ℤ d.window (since now e.last_seen)

entry_at : Detector → Option Entry → Time → Entry
entry_at d none now = fresh now
entry_at d (some e) now = if stale d e now then fresh now else e

abbrev add_reason : List String → String → List String
add_reason rs r = if ltb (length rs) 5 then rs ++ r ∷ [] else rs

-- `RecordFailure` on the entry of its fingerprint.
bump : Detector → Entry → String → Time → Entry × Bool
bump d e reason now =
    let e' = record e {
      count = e.count + 1;
      last_seen = now;
      reasons = add_reason e.reasons reason;
    } in
    if leb_ℤ d.threshold (pos e'.count) && not e'.notified
    then (record e' { notified = true }, true)
    else (e', false)

-- The result is the detector, `detected` and the count. (The source's arguments `agentID` and
-- `taskType` are not used.)
unfoldable pub record_failure : Detector → String → String → Time → Detector × Bool × ℕ
unfolding entry_at bump
record_failure d fp reason now =
    let (e, detected) = bump d (entry_at d (lookup fp d.entries) now) reason now in
    (record d { entries = insert fp e d.entries }, detected, e.count)

unfoldable pub record_success : Detector → String → Detector
record_success d fp = record d { entries = delete fp d.entries }

looping : Detector → Option Entry → Time → Bool
looping d none now = false
looping d (some e) now = if stale d e now then false else leb_ℤ d.threshold (pos e.count)

unfoldable pub is_looping : Detector → String → Time → Bool
unfolding looping
is_looping d fp now = looping d (lookup fp d.entries) now

-- The calls that change a detector.
pub data Call : Type 0 where
  fails : String → String → Time → Call
  succeeds : String → Call

unfoldable pub step : Detector → Call → Detector
unfolding record_failure record_success
step d (fails fp reason now) = (record_failure d fp reason now).0
step d (succeeds fp) = record_success d fp

unfoldable pub run : Detector → List Call → Detector
run d [] = d
run d (c ∷ cs) = run (step d c) cs
