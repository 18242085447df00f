-- ===== src/Hub/Runs/Handling.antt =====
-- Frames from connected agents.
use talkeqidea.Common.{ℕ, ◌≡◌, refl, Bool, true, Option, none, some, lookup}
use talkeqidea.Golang.Strings.{Unicode}
use talkeqidea.Relay.Event.{FrameType, Renderer}
use talkeqidea.Relay.Frame.{Frame, Codecs, ProbeReply, Status, new_frame, decode}
use talkeqidea.Hub.Session.{Session}
use talkeqidea.Hub.Core.{is_same}
use talkeqidea.Hub.Admission.{Server}
use talkeqidea.Hub.Frames.{set_session, on_status, published, replied, on_test_reply, on_frame_of}
use talkeqidea.Hub.Runs.Kept.{IsKept, set_session-AreKept, on_event-AreKept}
use talkeqidea.Hub.Runs.Arriving.{IsSound}

module _ {P : Type 0} where
  -- A change of a session that keeps what the map relies on.
  pub changed-IsSound :
      (s : Server P) (y : Session Frame)
      → (is_same y (lookup y.server_key s.hub.sessions) ≡ true
          → IsKept s.queue_size s.next_id y.server_key y)
      → IsSound s
      → IsSound (record s { hub = set_session s.hub y })
  changed-IsSound s y k h = set_session-AreKept s.queue_size s.next_id s.hub y k h

  -- A session of the map, or one that left it.
  unfoldable pub IsCurrent : Server P → Session Frame → Type 0
  IsCurrent s x =
      is_same x (lookup x.server_key s.hub.sessions) ≡ true
      → IsKept s.queue_size s.next_id x.server_key x

  on_status-IsSound :
      (s : Server P) (x : Session Frame) (status : Option Status)
      → IsCurrent s x
      → IsSound s
      → IsSound (record s { hub = on_status s.hub x status })
  unfolding on_status IsCurrent is_same
  on_status-IsSound s x none k h = h
  on_status-IsSound s x (some status) k h =
      changed-IsSound s
        (record x { player_count = status.player_count; source_up = status.source_up })
        (λ same. as_kept (k same)) h
    where
      as_kept :
          IsKept s.queue_size s.next_id x.server_key x
          → IsKept s.queue_size s.next_id x.server_key
              (record x { player_count = status.player_count; source_up = status.source_up })
      as_kept k' = record { keyed = refl; made = k'.made; sized = k'.sized; fits = k'.fits }

  on_test_reply-IsSound :
      (s : Server P) (reply : Option ProbeReply) → IsSound s → IsSound (on_test_reply s reply).0
  unfolding on_test_reply replied
  on_test_reply-IsSound s none h = h
  on_test_reply-IsSound s (some reply) h = h

module _ (u : Unicode) (execute : Renderer) (c : Codecs) {P : Type 0} where
  pub on_frame_of-IsSound :
      (t : FrameType) (s : Server P) (now : ℕ) (x : Session Frame) (within : Bool) (frame : Frame)
      → IsCurrent s x
      → IsSound s
      → IsSound (on_frame_of u execute c t s now x within frame).0
  unfolding on_frame_of published
  on_frame_of-IsSound FrameType.event s now x within frame k h =
      on_event-AreKept u execute (new_frame c.event FrameType.event) s.queue_size s.next_id s.hub
        now x within (decode c.event frame) h
  on_frame_of-IsSound FrameType.status s now x within frame k h =
      on_status-IsSound s x (decode c.status frame) k h
  on_frame_of-IsSound FrameType.test_reply s now x within frame k h =
      on_test_reply-IsSound s (decode c.test_reply frame) h
  on_frame_of-IsSound FrameType.hello s now x within frame k h = h
  on_frame_of-IsSound FrameType.welcome s now x within frame k h = h
  on_frame_of-IsSound FrameType.error s now x within frame k h = h
  on_frame_of-IsSound FrameType.enroll s now x within frame k h = h
  on_frame_of-IsSound FrameType.enrolled s now x within frame k h = h
  on_frame_of-IsSound FrameType.test s now x within frame k h = h
  on_frame_of-IsSound (FrameType.unknown name) s now x within frame k h = h
