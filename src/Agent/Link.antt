-- ===== src/Agent/Link.antt =====
-- agent/agent.go: the state of an agent, and what it reports to the hub. Times are nanoseconds.
pub mod Queue
use talkeqidea.Common.{
  ℕ, ◌+◌, ◌*◌, ◌/◌, ◌≡◌, Bool, true, false, ◌||◌, List, [], ◌∷◌, ◌++◌, Option, none, some, Text,
  is_empty, length, ltb, ◌==◌, if◌then◌else◌, text_eq,
}
use talkeqidea.Config.Settings.{AgentConf}
use talkeqidea.Golang.Strings.{Unicode}
use talkeqidea.Sanitize
use talkeqidea.Relay.Event.{Event, FrameType, new_event}
use talkeqidea.Relay.Frame.{Frame, Codecs, Status, new_frame}
use talkeqidea.Agent.Echo.{EchoCache, new_echo_cache, is_echo}

-- A callback that writes a line to the console, and the text of its error.
abbrev pub Subscriber : Type 0
Subscriber = Text → Option Text

pub record Agent : Type 0 where
  pub cfg : AgentConf
  pub out : List Frame
  pub subscribers : List Subscriber
  pub echo : EchoCache
  pub version : Text
  pub is_connected : Bool
  pub player_count : ℕ
  pub source_up : Bool
  pub dropped : ℕ

abbrev pub outbound_queue : ℕ
outbound_queue = 512

abbrev pub echo_ttl : ℕ
echo_ttl = 15 * 1000000000

unfoldable pub new_agent : AgentConf → Agent
new_agent cfg = record {
  cfg = cfg;
  out = [];
  subscribers = [];
  echo = new_echo_cache echo_ttl;
  version = [];
  is_connected = false;
  player_count = 0;
  source_up = false;
  dropped = 0;
}

unfoldable pub subscribe : Agent → Subscriber → Agent
subscribe a s = record a { subscribers = a.subscribers ++ s ∷ [] }

unfoldable pub set_version : Agent → Text → Agent
set_version a version = record a { version = version }

unfoldable pub disconnect : Agent → Agent
disconnect a = record a { is_connected = false }

-- `select { case a.out <- frame: default: }`.
unfoldable pub offer : Agent → Frame → Agent × Bool
offer a frame =
    if ltb (length a.out) outbound_queue
    then (record a { out = a.out ++ frame ∷ [] }, true)
    else (a, false)

-- `select { case <-a.out: a.dropped.Add(1) default: }`.
unfoldable pub shed : Agent → List Frame → Agent
shed a [] = a
shed a (_ ∷ rest) = record a { out = rest; dropped = a.dropped + 1 }

-- The last `select` of `enqueue`.
unfoldable pub settle : Agent × Bool → Agent
settle (a, true) = a
settle (a, false) = record a { dropped = a.dropped + 1 }

unfoldable pub make_room : Frame → Agent × Bool → Agent
make_room frame (a, true) = a
make_room frame (a, false) = settle (offer (shed a a.out) frame)

unfoldable pub enqueue : Agent → Frame → Agent
enqueue a frame = make_room frame (offer a frame)

-- A frame that could not be encoded is not queued.
unfoldable pub enqueue_made : Agent → Option Frame → Agent
enqueue_made a none = a
enqueue_made a (some frame) = enqueue a frame

-- The writer takes the head.
unfoldable pub take_head : Agent → List Frame → Agent
take_head a [] = a
take_head a (_ ∷ rest) = record a { out = rest }

-- The event of a message that was seen on this server.
unfoldable pub local_event : Agent → Text → ℕ → Text → Text → Text → Event
local_event a new_id now channel name message =
    record (new_event new_id (now / 1000000) channel name message) {
      origin = a.cfg.server_key;
      origin_name = a.cfg.short_name;
    }

unfoldable pub enqueue_event : Agent → Option Frame → Agent × Bool
enqueue_event a none = (a, false)
enqueue_event a (some frame) = (enqueue a frame, true)

-- `Bool-eq` of two flags, for `Swap(isUp) == isUp`.
unfoldable pub is_same : Bool → Bool → Bool
is_same true b = b
is_same false true = false
is_same false false = true

module _ (c : Codecs) where
  unfoldable pub queue_status : Agent → Agent
  queue_status a = enqueue_made a (
      new_frame c.status FrameType.status
        (record { player_count = a.player_count; source_up = a.source_up; dropped_inbound = 0 }))

  unfoldable pub set_player_count : Agent → ℕ → Agent
  set_player_count a n =
      if a.player_count == n then a else queue_status (record a { player_count = n })

  unfoldable pub set_source_up : Agent → Bool → Agent
  set_source_up a is_up =
      if is_same a.source_up is_up then a else queue_status (record a { source_up = is_up })

  -- What follows the test for an echo.
  unfoldable pub publish_heard :
      Agent → Text → ℕ → Text → Text → Text → EchoCache × Bool → Agent × Bool
  publish_heard a new_id now channel name message (echo, true) = (record a { echo = echo }, false)
  publish_heard a new_id now channel name message (echo, false) =
      enqueue_event (record a { echo = echo })
        (new_frame c.event FrameType.event (local_event a new_id now channel name message))

  unfoldable pub publish : Unicode → Agent → Text → ℕ → Text → Text → Text → Agent × Bool
  publish u a new_id now channel name message =
      let name' = Sanitize.name name in
      let message' = Sanitize.message u message in
      if is_empty name' || is_empty message'
      then (a, false)
      else publish_heard a new_id now channel name' message' (is_echo a.echo now name' message')
