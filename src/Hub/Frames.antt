-- ===== src/Hub/Frames.antt =====
-- What a connected agent sends: onFrame of hub/hub.go.
use talkeqidea.Common.{ℕ, Bool, List, [], Option, none, some, if◌then◌else◌, lookup, insert}
use talkeqidea.Golang.Strings.{Unicode}
use talkeqidea.Relay.Event.{FrameType, Renderer}
use talkeqidea.Relay.Frame.{Frame, Codecs, Status, ProbeReply, new_frame, decode}
use talkeqidea.Hub.Session.{Session}
use talkeqidea.Hub.Core.{Hub, DiscordSend, is_same, on_event}
use talkeqidea.Hub.Probes.{PendingTests, deliver}
use talkeqidea.Hub.Admission.{Server}

-- A change to a session shows in the map while the session is the one that stands there.
unfoldable pub set_session : {F : Type 0} → Hub F → Session F → Hub F
set_session h s =
    if is_same s (lookup s.server_key h.sessions)
    then record h { sessions = insert s.server_key s h.sessions }
    else h

unfoldable pub on_status : {F : Type 0} → Hub F → Session F → Option Status → Hub F
on_status h s none = h
on_status h s (some status) =
    set_session h (record s { player_count = status.player_count; source_up = status.source_up })

-- What goes out beside the queues: to Discord, and on the channel of a test.
pub record Sent : Type 0 where
  pub discord : List DiscordSend
  pub reply : Option (ℕ × ProbeReply)

module _ {P : Type 0} where
  unfoldable pub published : Server P → Hub Frame × List DiscordSend → Server P × Sent
  published s (h, discord) = (record s { hub = h }, record { discord = discord; reply = none })

  unfoldable pub replied : Server P → PendingTests × Option (ℕ × ProbeReply) → Server P × Sent
  replied s (tests, reply) = (record s { tests = tests }, record { discord = []; reply = reply })

  unfoldable pub on_test_reply : Server P → Option ProbeReply → Server P × Sent
  on_test_reply s none = (s, record { discord = []; reply = none })
  on_test_reply s (some reply) = replied s (deliver s.tests reply)

module _ (u : Unicode) (execute : Renderer) (c : Codecs) {P : Type 0} where
  -- By the type of the frame. `x` is the session as it stands; `is_within_rate` is the answer of
  -- its limiter, which is asked of events alone.
  unfoldable pub on_frame_of :
      FrameType → Server P → ℕ → Session Frame → Bool → Frame → Server P × Sent
  on_frame_of FrameType.event s now x is_within_rate frame = published s (
      on_event u execute (new_frame c.event FrameType.event) s.hub now x is_within_rate
        (decode c.event frame))
  on_frame_of FrameType.status s now x is_within_rate frame = (
    record s { hub = on_status s.hub x (decode c.status frame) },
    record { discord = []; reply = none },
  )
  on_frame_of FrameType.test_reply s now x is_within_rate frame =
      on_test_reply s (decode c.test_reply frame)
  on_frame_of _ s now x is_within_rate frame = (s, record { discord = []; reply = none })

  unfoldable pub on_frame : Server P → ℕ → Session Frame → Bool → Frame → Server P × Sent
  on_frame s now x is_within_rate frame = on_frame_of frame.frame_type s now x is_within_rate frame
