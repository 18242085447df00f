-- ===== src/Hub/Runs/Arriving.antt =====
-- Arrivals, which add sessions.
use talkeqidea.Common.{
  suc, inl, inr, refl, Bool, true, false, Bool-cases, Option, none, some, arith, if◌then◌else◌,
  ◌==◌, Result, ok, err,
}
use talkeqidea.Relay.Event.{FrameType, protocol_version}
use talkeqidea.Relay.Frame.{Frame, Hello, new_frame, decode}
use talkeqidea.Guard.Core.{Rejection, allow_connection, record_auth_success}
use talkeqidea.Hub.Roster.{Roster, RosterEntry, RosterError, authenticate}
use talkeqidea.Hub.Session.{new_session}
use talkeqidea.Hub.Core.{add_session, session_count}
use talkeqidea.Hub.Admission.{
  Server, Arrival, not_upgraded, welcome_of, welcome_agent, settle_agent, on_hello, enrolled_as,
  on_first, read_first, admitted, handle_agent,
}
use talkeqidea.Hub.Runs.{World}
use talkeqidea.Hub.Runs.Kept.{AreKept, insert-AreKept, later-AreKept}

-- The sessions of a hub, against its own queue size and counter.
abbrev pub IsSound : {P : Type 0} → Server P → Type 0
IsSound s = AreKept s.queue_size s.next_id s.hub.sessions

module _ {P : Type 0} where
  welcome_agent-IsSound :
      (s : Server P) (a : Arrival) (e : RosterEntry) (frame : Option Frame)
      → IsSound s
      → IsSound (welcome_agent s a e frame).0
  unfolding welcome_agent add_session new_session
  welcome_agent-IsSound s a e none h = h
  welcome_agent-IsSound s a e (some f) h = elim (Bool-cases a.is_delivered) [
    | inr lost ↦ rw lost h
    | inl delivered ↦ rw delivered (
        insert-AreKept s.queue_size (suc s.next_id) e.server_key
          (new_session s.next_id e.server_key e.short_name s.queue_size a.now) s.hub.sessions
          (record { keyed = refl; made = omega arith; sized = refl; fits = omega arith })
          (later-AreKept s.queue_size s.next_id s.hub.sessions h))
  ]

module _ (w : World) where
  open w use {netip, unicode, verify, codecs, enroll_json}
  open netip use {Prefix}

  settle_agent-IsSound :
      (s : Server Prefix) (a : Arrival) (r : Roster × Result RosterError RosterEntry)
      → IsSound s
      → IsSound (settle_agent netip unicode verify codecs enroll_json s a r).0
  unfolding settle_agent
  settle_agent-IsSound s a (r, err _) h = h
  settle_agent-IsSound s a (r, ok e) h =
      let front = record s.front {
        roster = r;
        guard = record_auth_success netip s.front.guard a.remote;
      } in
      welcome_agent-IsSound (record s { front = front }) a e
        (new_frame codecs.welcome FrameType.welcome (welcome_of s.heartbeat_secs e)) h

  on_hello-IsSound :
      (s : Server Prefix) (a : Arrival) (hello : Option Hello)
      → IsSound s
      → IsSound (on_hello netip unicode verify codecs enroll_json s a hello).0
  unfolding on_hello
  on_hello-IsSound s a none h = h
  on_hello-IsSound s a (some hello) h =
      elim (Bool-cases (hello.protocol_version == protocol_version)) [
        | inr other ↦ rw other h
        | inl same ↦ rw same (
            settle_agent-IsSound s a
              (authenticate unicode verify s.front.roster hello.server_key hello.token) h)
      ]

  on_first-IsSound :
      (t : FrameType) (s : Server Prefix) (a : Arrival) (frame : Frame)
      → IsSound s
      → IsSound (on_first netip unicode verify codecs enroll_json s a t frame).0
  unfolding on_first enrolled_as
  on_first-IsSound FrameType.hello s a frame h = on_hello-IsSound s a (decode codecs.hello frame) h
  on_first-IsSound FrameType.enroll s a frame h = h
  on_first-IsSound FrameType.welcome s a frame h = h
  on_first-IsSound FrameType.event s a frame h = h
  on_first-IsSound FrameType.status s a frame h = h
  on_first-IsSound FrameType.error s a frame h = h
  on_first-IsSound FrameType.enrolled s a frame h = h
  on_first-IsSound FrameType.test s a frame h = h
  on_first-IsSound FrameType.test_reply s a frame h = h
  on_first-IsSound (FrameType.unknown name) s a frame h = h

  read_first-IsSound :
      (s : Server Prefix) (a : Arrival) (first : Option Frame)
      → IsSound s
      → IsSound (read_first netip unicode verify codecs enroll_json s a first).0
  unfolding read_first
  read_first-IsSound s a none h = h
  read_first-IsSound s a (some frame) h = on_first-IsSound frame.frame_type s a frame h

  admitted-IsSound :
      (s : Server Prefix) (a : Arrival) (d : Result Rejection (Unit {0}))
      → IsSound s
      → IsSound (admitted netip unicode verify codecs enroll_json s a d).0
  unfolding admitted
  admitted-IsSound s a (err r) h = h
  admitted-IsSound s a (ok _) h = go a.is_upgraded
    where
      go :
          (b : Bool)
          → IsSound
              (if b
                then read_first netip unicode verify codecs enroll_json s a a.first
                else (s, not_upgraded)).0
      go true = read_first-IsSound s a a.first h
      go false = h

  pub handle_agent-IsSound :
      (s : Server Prefix) (a : Arrival)
      → IsSound s
      → IsSound (handle_agent netip unicode verify codecs enroll_json s a).0
  unfolding handle_agent
  handle_agent-IsSound s a h =
      let d = allow_connection netip s.front.guard a.now a.remote (session_count s.hub) in
      admitted-IsSound (record s { front = record s.front { guard = d.0 } }) a d.1 h
