-- ===== src/Agent/Runs.antt =====
-- Runs of an agent: what the telnet side, the hub and the writer of the socket do, in any order.
pub mod Bounds
pub mod Reachable
mod Tests
use talkeqidea.Common.{ℕ, Bool, Text}
use talkeqidea.Golang.Strings.{Unicode}
use talkeqidea.Relay.Event.{Renderer}
use talkeqidea.Relay.Frame.{Frame, Codecs}
use talkeqidea.Config.Settings.{AgentConf}
use talkeqidea.Agent.Link.{
  Agent, Subscriber, new_agent, subscribe, set_version, disconnect, take_head, set_player_count,
  set_source_up, publish,
}
use talkeqidea.Agent.Inbound.{on_frame}
use talkeqidea.Agent.Reconnect.{session_over}

module _ (u : Unicode) (execute : Renderer) (c : Codecs) where
  -- One call, each with its lock held or on the one goroutine that makes it.
  pub data Step (a : Agent) : Agent → Type 0 where
    subscribed : (s : Subscriber) → Step a (subscribe a s)
    versioned : (version : Text) → Step a (set_version a version)
    counted : (n : ℕ) → Step a (set_player_count c a n)
    source_changed : (is_up : Bool) → Step a (set_source_up c a is_up)
    published :
        (new_id : Text) (now : ℕ) (channel name message : Text)
        → Step a (publish c u a new_id now channel name message).0
    received :
        (new_id why : Text) (now : ℕ) (frame : Frame)
        → Step a (on_frame u execute c a new_id why now frame).0
    written : Step a (take_head a a.out)
    session_ended : (has_connected : Bool) → Step a (session_over a has_connected)
    disconnected : Step a (disconnect a)

  -- What a new agent can become.
  pub data Reach (cfg : AgentConf) : Agent → Type 0 where
    here : Reach cfg (new_agent cfg)
    next : {a b : Agent} → Reach cfg a → Step a b → Reach cfg b
