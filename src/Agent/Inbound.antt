-- ===== src/Agent/Inbound.antt =====
-- agent/agent.go: what the hub sends, and the lines it becomes in the local game.
pub mod Safe
pub mod Returning
pub mod Tests
use talkeqidea.Common.{
  ℕ, ◌/◌, ◌≡◌, Bool, true, false, not, ◌||◌, List, [], ◌∷◌, ◌++◌, Option, none, some, map, Text,
  codes, is_empty, text_eq, if◌then◌else◌,
}
use talkeqidea.Golang.Strings.{Unicode}
use talkeqidea.Config.Relay.{find_agent_channel}
use talkeqidea.Sanitize
use talkeqidea.Sanitize.{is_safe_telnet_line}
use talkeqidea.Relay.Event.{Event, FrameType, Renderer, new_event, origin_discord, render}
use talkeqidea.Relay.Frame.{Frame, Codecs, Probe, ProbeReply, new_frame, decode}
use talkeqidea.Agent.Echo.{remember}
use talkeqidea.Config.Settings.{AgentChannel}
use talkeqidea.Agent.Link.{Agent, Subscriber, enqueue_made}

-- The channel of a name, if it is enabled.
unfoldable pub enabled : Option AgentChannel → Option AgentChannel
enabled none = none
enabled (some ch) = if ch.is_enabled then some ch else none

-- A line that is sent to each subscriber in turn; a failure is logged.
unfoldable pub send_line : Text → List Subscriber → List Text
send_line line [] = []
send_line line (s ∷ rest) = line ∷ send_line line rest

-- What follows the rendering of an event.
unfoldable pub inject_rendered : Agent → ℕ → Event → Option Text → Agent × List Text
inject_rendered a now e none = (a, [])
inject_rendered a now e (some line) =
    if is_safe_telnet_line line
    then (record a { echo = remember a.echo now e }, send_line line a.subscribers)
    else (a, [])

unfoldable pub inject_into : Renderer → Agent → ℕ → Event → Option AgentChannel → Agent × List Text
inject_into execute a now e none = (a, [])
inject_into execute a now e (some ch) =
    if is_empty e.name || is_empty e.message
    then (a, [])
    else inject_rendered a now e (render execute ch.inbound_tmpl e [])

unfoldable pub cleaned : Unicode → Event → Event
cleaned u e = record e { name = Sanitize.name e.name; message = Sanitize.message u e.message }

-- `inject`, with the lines that it hands to the subscribers.
unfoldable pub inject : Unicode → Renderer → Agent → ℕ → Event → Agent × List Text
inject u execute a now e =
    if text_eq e.origin a.cfg.server_key
    then (a, [])
    else inject_into execute a now (cleaned u e)
        (enabled (find_agent_channel e.channel a.cfg.channels))

abbrev pub test_name : Text
test_name = codes "Modern EQ Chat"

-- What one subscriber answers decides whether the others are tried.
unfoldable pub try_answer : Text → Option Text → List Text × Bool × Text → List Text × Bool × Text
try_answer line none later = (line ∷ later.0, later.1, later.2)
try_answer line (some why) later = (line ∷ [], false, why)

-- The lines that the subscribers are handed up to the first that fails, and how that ends.
unfoldable pub try_line : Text → List Subscriber → List Text × Bool × Text
try_line line [] = ([], true, [])
try_line line (s ∷ rest) = try_answer line (s line) (try_line line rest)

unfoldable pub try_subscribers : Text → List Subscriber → List Text × Bool × Text
try_subscribers line [] = ([], false, codes "no telnet connection is wired up")
try_subscribers line (s ∷ rest) = try_line line (s ∷ rest)

-- `why` is the text of the library's error, where it fails to render.
unfoldable pub test_rendered :
    Text → Agent → ℕ → Event → Option Text → Agent × (List Text × Bool × Text)
test_rendered why a now e none = (a, ([], false, codes "render inbound pattern: " ++ why))
test_rendered why a now e (some line) =
    if is_safe_telnet_line line
    then (record a { echo = remember a.echo now e }, try_subscribers line a.subscribers)
    else (a, ([], false, codes "rendered line was unsafe to send"))

unfoldable pub test_event : Unicode → Text → ℕ → Text → Event
test_event u new_id now message =
    record (new_event new_id (now / 1000000) (codes "ooc") test_name (Sanitize.message u message)) {
      origin = origin_discord;
      origin_name = codes "Hub";
    }

unfoldable pub test_into :
    Unicode
    → Renderer
    → Agent
    → Text
    → Text
    → ℕ
    → Text
    → Option AgentChannel
    → Agent × (List Text × Bool × Text)
test_into u execute a new_id why now message none =
    (a, ([], false, codes "no enabled ooc channel to inject into"))
test_into u execute a new_id why now message (some ch) =
    let e = test_event u new_id now message in
    test_rendered why a now e (render execute ch.inbound_tmpl e [])

-- `injectTestLine`: the lines, whether all went well, and what went wrong.
unfoldable pub inject_test_line :
    Unicode → Renderer → Agent → Text → Text → ℕ → Text → Agent × (List Text × Bool × Text)
inject_test_line u execute a new_id why now message =
    test_into u execute a new_id why now
      (if is_empty message then codes "Modern EQ Chat relay test" else message)
      (enabled (find_agent_channel (codes "ooc") a.cfg.channels))

module _ (u : Unicode) (execute : Renderer) (c : Codecs) where
  unfoldable pub answer_test : Probe → Agent × (List Text × Bool × Text) → Agent × List Text
  answer_test req (a, (lines, injected_ok, detail)) = (
    enqueue_made a (
        new_frame c.test_reply FrameType.test_reply (record {
          id = req.id;
          source_up = a.source_up;
          player_count = a.player_count;
          version = a.version;
          injected_ok = injected_ok;
          detail = detail;
        })),
    lines,
  )

  unfoldable pub handle_test : Agent → Text → Text → ℕ → Option Probe → Agent × List Text
  handle_test a new_id why now none = (a, [])
  handle_test a new_id why now (some req) = answer_test req (
      if req.is_echo
      then inject_test_line u execute a new_id why now req.message
      else (a, ([], false, [])))

  unfoldable pub inject_decoded : Agent → ℕ → Option Event → Agent × List Text
  inject_decoded a now none = (a, [])
  inject_decoded a now (some e) = inject u execute a now e

  -- One round of `readLoop`.
  unfoldable pub on_frame_of : FrameType → Agent → Text → Text → ℕ → Frame → Agent × List Text
  on_frame_of FrameType.event a new_id why now frame = inject_decoded a now (decode c.event frame)
  on_frame_of FrameType.test a new_id why now frame =
      handle_test a new_id why now (decode c.test frame)
  on_frame_of _ a new_id why now frame = (a, [])

  unfoldable pub on_frame : Agent → Text → Text → ℕ → Frame → Agent × List Text
  on_frame a new_id why now frame = on_frame_of frame.frame_type a new_id why now frame
