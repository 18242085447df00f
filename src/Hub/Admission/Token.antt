-- ===== src/Hub/Admission/Token.antt =====
-- What a connection must show before it is a session.
use mathlib.Core.List.{Memᴰ}
use talkeqidea.Common.{
  ◌≡◌, inl, inr, refl, Bool, true, false, Bool-cases, Option, none, some, arith, Text, ◌==◌,
  if◌then◌else◌, Result, ok, err,
}
use talkeqidea.Golang.Strings.{Unicode}
use talkeqidea.Relay.Event.{FrameType, protocol_version}
use talkeqidea.Relay.Frame.{Frame, Json, Codecs, Hello, decode}
use talkeqidea.Guard.Core.{Netip, Rejection, allow_connection}
use talkeqidea.Hub.Store.{values}
use talkeqidea.Hub.Roster.{Roster, RosterEntry, RosterError, reread, authenticate}
use talkeqidea.Hub.Roster.Identity.{authenticate_sound}
use talkeqidea.Hub.Session.{Session, new_session}
use talkeqidea.Hub.Core.{add_session, session_count}
use talkeqidea.Hub.Enrollment.{Enroll}
use talkeqidea.Hub.Admission.{
  Server, Arrival, connected, not_upgraded, welcome_agent, settle_agent, on_hello, enrolled_as,
  on_first, read_first, admitted, handle_agent,
}

module _ {P : Type 0} where
  welcome_agent-connected :
      (s : Server P) (a : Arrival) (e : RosterEntry) (frame : Option Frame) (x : Session Frame)
      → (welcome_agent s a e frame).1 ≡ connected x
      → (x ≡ new_session s.next_id e.server_key e.short_name s.queue_size a.now)
        × ((welcome_agent s a e frame).0.hub ≡ add_session s.hub x)
  unfolding welcome_agent
  welcome_agent-connected s a e none x h = absurd (cc)
  welcome_agent-connected s a e (some f) x h = elim (Bool-cases a.is_delivered) [
    | inl delivered ↦ ground arith
    | inr lost ↦ absurd (cc (rw lost at h))
  ]

module _ (n : Netip) (u : Unicode) (verify : Text → Text → Bool) (c : Codecs)
    (enroll_json : Json Enroll) where
  open n use {Prefix}

  -- What is known of a connection that became a session.
  pub record IsProven (s : Server Prefix) (a : Arrival) (t : Server Prefix) (x : Session Frame)
      : Type 0 where
    pub frame : Frame
    pub hello : Hello
    pub entry : RosterEntry
    pub sent : a.first ≡ some frame
    pub is_hello : frame.frame_type ≡ FrameType.hello
    pub decoded : decode c.hello frame ≡ some hello
    pub same_version : (hello.protocol_version == protocol_version) ≡ true
    pub enrolled : Memᴰ entry (values (reread s.front.roster).entries)
    pub holds_token : verify hello.token entry.token_hash ≡ true
    pub enabled : entry.is_disabled ≡ false
    pub identity : x ≡ new_session s.next_id entry.server_key entry.short_name s.queue_size a.now
    pub added : t.hub ≡ add_session s.hub x

  settle_agent-connected :
      (s : Server Prefix) (a : Arrival) (r : Roster × Result RosterError RosterEntry)
      (x : Session Frame)
      → (settle_agent n u verify c enroll_json s a r).1 ≡ connected x
      → (e : RosterEntry) × (r.1 ≡ ok e)
        × (x ≡ new_session s.next_id e.server_key e.short_name s.queue_size a.now)
        × ((settle_agent n u verify c enroll_json s a r).0.hub ≡ add_session s.hub x)
  unfolding settle_agent
  settle_agent-connected s a (r, err _) x h = absurd (cc)
  settle_agent-connected s a (r, ok e) x h =
      let (made, put) = welcome_agent-connected _ a e _ x h in (e, refl, made, put)

  on_hello-connected :
      (s : Server Prefix) (a : Arrival) (frame : Frame) (hello : Option Hello) (x : Session Frame)
      → a.first ≡ some frame
      → frame.frame_type ≡ FrameType.hello
      → decode c.hello frame ≡ hello
      → (on_hello n u verify c enroll_json s a hello).1 ≡ connected x
      → IsProven s a (on_hello n u verify c enroll_json s a hello).0 x
  unfolding on_hello
  on_hello-connected s a frame none x sent t d h = absurd (cc)
  on_hello-connected s a frame (some hello) x sent t d h =
      elim (Bool-cases (hello.protocol_version == protocol_version)) [
        | inr other ↦ absurd (cc (rw other at h))
        | inl same ↦
            let r = authenticate u verify s.front.roster hello.server_key hello.token in
            let (e, resolved, made, put) = settle_agent-connected s a r x (rw same at h) in
            let (m, v, o) =
              authenticate_sound u verify s.front.roster hello.server_key hello.token e resolved in
            record {
              frame = frame;
              hello = hello;
              entry = e;
              sent = sent;
              is_hello = t;
              decoded = d;
              same_version = same;
              enrolled = m;
              holds_token = v;
              enabled = o;
              identity = made;
              added = rw same put;
            }
      ]

  on_first-connected :
      (t : FrameType) (s : Server Prefix) (a : Arrival) (frame : Frame) (x : Session Frame)
      → a.first ≡ some frame
      → frame.frame_type ≡ t
      → (on_first n u verify c enroll_json s a t frame).1 ≡ connected x
      → IsProven s a (on_first n u verify c enroll_json s a t frame).0 x
  unfolding on_first enrolled_as
  on_first-connected FrameType.hello s a frame x sent t h =
      on_hello-connected s a frame (decode c.hello frame) x sent t refl h
  on_first-connected FrameType.enroll s a frame x sent t h = absurd (cc)
  on_first-connected FrameType.welcome s a frame x sent t h = absurd (cc)
  on_first-connected FrameType.event s a frame x sent t h = absurd (cc)
  on_first-connected FrameType.status s a frame x sent t h = absurd (cc)
  on_first-connected FrameType.error s a frame x sent t h = absurd (cc)
  on_first-connected FrameType.enrolled s a frame x sent t h = absurd (cc)
  on_first-connected FrameType.test s a frame x sent t h = absurd (cc)
  on_first-connected FrameType.test_reply s a frame x sent t h = absurd (cc)
  on_first-connected (FrameType.unknown name) s a frame x sent t h = absurd (cc)

  read_first-connected :
      (s : Server Prefix) (a : Arrival) (first : Option Frame) (x : Session Frame)
      → a.first ≡ first
      → (read_first n u verify c enroll_json s a first).1 ≡ connected x
      → IsProven s a (read_first n u verify c enroll_json s a first).0 x
  unfolding read_first
  read_first-connected s a none x sent h = absurd (cc)
  read_first-connected s a (some frame) x sent h =
      on_first-connected frame.frame_type s a frame x sent refl h

  admitted-connected :
      (s : Server Prefix) (a : Arrival) (d : Result Rejection (Unit {0})) (x : Session Frame)
      → (admitted n u verify c enroll_json s a d).1 ≡ connected x
      → (d ≡ ok tt) × IsProven s a (admitted n u verify c enroll_json s a d).0 x
  unfolding admitted
  admitted-connected s a (err r) x h = absurd (cc)
  admitted-connected s a (ok w) x h = (refl, go a.is_upgraded h)
    where
      go :
          (b : Bool)
          → (if b then read_first n u verify c enroll_json s a a.first else (s, not_upgraded)).1
            ≡ connected x
          → IsProven s a
              (if b then read_first n u verify c enroll_json s a a.first else (s, not_upgraded)).0
              x
      go true h' = read_first-connected s a a.first x refl h'
      go false h' = absurd (cc)

  -- A connection becomes a session only when the guard let it in and its first frame is a hello of
  -- the hub's protocol version with a token that verifies against an enabled entry of the roster;
  -- the session then stands under the key and the name of that entry, whatever the hello claims.
  pub handle_agent_sound :
      (s : Server Prefix) (a : Arrival) (x : Session Frame)
      → (handle_agent n u verify c enroll_json s a).1 ≡ connected x
      → ((allow_connection n s.front.guard a.now a.remote (session_count s.hub)).1 ≡ ok tt)
        × IsProven s a (handle_agent n u verify c enroll_json s a).0 x
  unfolding handle_agent
  handle_agent_sound s a x h =
      let d = allow_connection n s.front.guard a.now a.remote (session_count s.hub) in
      let (allowed, p) =
        admitted-connected (record s { front = record s.front { guard = d.0 } }) a d.1 x h in
      (
        allowed,
        record {
          frame = p.frame;
          hello = p.hello;
          entry = p.entry;
          sent = p.sent;
          is_hello = p.is_hello;
          decoded = p.decoded;
          same_version = p.same_version;
          enrolled = p.enrolled;
          holds_token = p.holds_token;
          enabled = p.enabled;
          identity = p.identity;
          added = p.added;
        },
      )
