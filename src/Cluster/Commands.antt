-- ===== src/Cluster/Commands.antt =====
-- services/signalmesh-node/internal/cluster/store.go: chaos commands. What the registered handlers
-- change is a state of the caller, on which they run in order.
use signalmesh.Base.{
  ◌≡◌, ◌≢◌, Option, none, some, List, [], ◌∷◌, String, arith, str_eq, if◌then◌else◌, Bool,
}
use signalmesh.Base.Int.{ℤ}
use signalmesh.Base.Clock.{Time}
use signalmesh.Base.Maps.{lookup, lookup-insert, str_eq_refl}
use signalmesh.Cluster.{Store, mark_seen_local, already_seen}
use signalmesh.Cluster.Events.{seen_again}

pub record ChaosCommand (F : Type 0) : Type 0 where
  pub event_id : String
  pub source_node_id : String
  pub timestamp : Time
  pub provider : String
  pub latency_ms : ℤ
  pub error_rate : F
  pub contract_fail : Bool

marked-seen :
    {F : Type 0} (s : Store F) (event : String) (now : Time)
    → lookup event (mark_seen_local s event now).seen ≢ none
unfolding mark_seen_local
marked-seen s event now = ground (arith, lookup-insert event event now s.seen, str_eq_refl event)

module _ {F W : Type 0} where
  unfoldable pub run_handlers : List (ChaosCommand F → W → W) → ChaosCommand F → W → W
  run_handlers [] cmd w = w
  run_handlers (h ∷ hs) cmd w = run_handlers hs cmd (h cmd w)

  -- The command that is published is the last part of the result.
  unfoldable pub publish_chaos :
      List (ChaosCommand F → W → W)
      → Store F × W
      → ChaosCommand F
      → String
      → Time
      → Time
      → (Store F × W) × ChaosCommand F
  unfolding run_handlers mark_seen_local
  publish_chaos hs (s, w) cmd event now seen_at =
      let c = record cmd {
        event_id = if str_eq cmd.event_id "" then event else cmd.event_id;
        source_node_id = s.node_id;
        timestamp = now;
      } in
      ((mark_seen_local s c.event_id seen_at, run_handlers hs c w), c)

  -- A command that cannot be decoded is `none`.
  unfoldable pub handle_chaos :
      List (ChaosCommand F → W → W) → Store F × W → Option (ChaosCommand F) → Time → Store F × W
  unfolding run_handlers already_seen
  handle_chaos hs (s, w) none now = (s, w)
  handle_chaos hs (s, w) (some cmd) now =
      if str_eq cmd.event_id ""
      then (s, w)
      else (let (s', again) = already_seen s cmd.event_id now in
          if again then (s', w) else (s', run_handlers hs cmd w))

  handle_chaos-known :
      (hs : List (ChaosCommand F → W → W)) (s : Store F) (w : W) (cmd : ChaosCommand F) (now : Time)
      → lookup cmd.event_id s.seen ≢ none
      → handle_chaos hs (s, w) (some cmd) now ≡ (s, w)
  unfolding handle_chaos
  handle_chaos-known hs s w cmd now h = rw (seen_again s cmd.event_id now h) (ground arith)

  -- A command that the node has published itself changes nothing when the bus delivers it back.
  pub own_echo_ignored :
      (hs : List (ChaosCommand F → W → W)) (n : Store F × W) (cmd : ChaosCommand F) (event : String)
      (now seen_at later : Time)
      → let (n', sent) = publish_chaos hs n cmd event now seen_at in
        handle_chaos hs n' (some sent) later ≡ n'
  unfolding publish_chaos
  own_echo_ignored hs (s, w) cmd event now seen_at later =
      let (n', sent) = publish_chaos hs (s, w) cmd event now seen_at in
      handle_chaos-known hs n'.0 n'.1 sent later (marked-seen s sent.event_id seen_at)
