-- ===== src/Hub/Admission.antt =====
-- How a connection becomes a session: handleAgent of hub/hub.go.
pub mod Token
pub mod Refused
use talkeqidea.Common.{
  ℕ, suc, ◌+◌, ◌/◌, ◌≡◌, Bool, true, false, not, List, [], Option, none, some, Text, ltb, ◌==◌,
  if◌then◌else◌, Result, ok, err,
}
use talkeqidea.Golang.Strings.{Unicode}
use talkeqidea.Relay.Event.{FrameType, protocol_version}
use talkeqidea.Relay.Frame.{Frame, Json, Codecs, Hello, Welcome, new_frame, decode}
use talkeqidea.Guard.Core.{
  Netip, Rejection, retry_of, allow_connection, record_auth_failure, record_auth_success, second,
}
use talkeqidea.Hub.Store.{SaveOutcome}
use talkeqidea.Hub.Roster.{Roster, RosterEntry, RosterError, Minted, authenticate, mark_seen}
use talkeqidea.Hub.Session.{Session, new_session}
use talkeqidea.Hub.Core.{Hub, add_session, session_count}
use talkeqidea.Hub.Probes.{PendingTests}
use talkeqidea.Hub.Enrollment.{Enroll, Front, Writes, Answer, handle_enroll}

-- The hub, with what its configuration says of sessions. `next_id`
-- numbers the sessions that enter the map.
pub record Server (P : Type 0) : Type 0 where
  pub front : Front P
  pub hub : Hub Frame
  pub queue_size : ℕ
  pub heartbeat_secs : ℕ
  pub tests : PendingTests
  pub next_id : ℕ

-- A connection: what is read from it, and how the socket and the files behave.
pub record Arrival : Type 0 where
  pub now : ℕ
  pub remote : Text
  pub is_upgraded : Bool
  pub first : Option Frame
  pub writes : Writes
  pub seen : SaveOutcome
  pub minted : Minted
  pub is_encoded : Bool
  pub is_delivered : Bool

-- What comes of it; `refused` carries the status and the header `Retry-After`.
pub data Greeting : Type 0 where
  refused : Rejection → ℕ → Option ℕ → Greeting
  not_upgraded not_understood other_version unauthorized not_welcomed : Greeting
  enrolling : Answer → Greeting
  connected : Session Frame → Greeting

unfoldable pub status_of : Rejection → ℕ
status_of r = if ltb 0 (retry_of r) then 429 else 403

unfoldable pub retry_header : Rejection → Option ℕ
retry_header r = if ltb 0 (retry_of r) then some (retry_of r / second + 1) else none

unfoldable pub welcome_of : ℕ → RosterEntry → Welcome
welcome_of heartbeat_secs e = record {
  protocol_version = protocol_version;
  server_key = e.server_key;
  short_name = e.short_name;
  hub_version = [];
  heartbeat_secs = heartbeat_secs;
}

module _ {P : Type 0} where
  -- The session enters the map once the welcome is written.
  unfoldable pub welcome_agent :
      Server P → Arrival → RosterEntry → Option Frame → Server P × Greeting
  welcome_agent s a e none = (s, not_welcomed)
  welcome_agent s a e (some _) =
      let session = new_session s.next_id e.server_key e.short_name s.queue_size a.now in
      if a.is_delivered
      then (
        record s {
          hub = add_session s.hub session;
          next_id = suc s.next_id;
          front = record s.front {
            roster = mark_seen s.front.roster e.server_key (a.now / second) a.seen;
          };
        },
        connected session,
      )
      else (s, not_welcomed)

module _ (n : Netip) (u : Unicode) (verify : Text → Text → Bool) (c : Codecs)
    (enroll_json : Json Enroll) where
  open n use {Prefix}

  -- What follows `Authenticate`.
  unfoldable pub settle_agent :
      Server Prefix → Arrival → Roster × Result RosterError RosterEntry → Server Prefix × Greeting
  settle_agent s a (r, err _) = (
    record s {
      front = record s.front {
        roster = r;
        guard = record_auth_failure n s.front.guard a.now a.remote;
      };
    },
    unauthorized,
  )
  settle_agent s a (r, ok e) =
      welcome_agent
        (record s {
          front = record s.front {
            roster = r;
            guard = record_auth_success n s.front.guard a.remote;
          };
        })
        a e (new_frame c.welcome FrameType.welcome (welcome_of s.heartbeat_secs e))

  unfoldable pub on_hello : Server Prefix → Arrival → Option Hello → Server Prefix × Greeting
  on_hello s a none = (s, not_understood)
  on_hello s a (some hello) =
      if hello.protocol_version == protocol_version
      then settle_agent s a (authenticate u verify s.front.roster hello.server_key hello.token)
      else (s, other_version)

  unfoldable pub enrolled_as : Server Prefix → Front Prefix × Answer → Server Prefix × Greeting
  enrolled_as s (front, answer) = (record s { front = front }, enrolling answer)

  -- By the type of the first frame.
  unfoldable pub on_first : Server Prefix → Arrival → FrameType → Frame → Server Prefix × Greeting
  on_first s a FrameType.enroll frame = enrolled_as s (
      handle_enroll n u verify s.front a.now a.remote a.writes a.minted a.is_encoded a.is_delivered
        (decode enroll_json frame))
  on_first s a FrameType.hello frame = on_hello s a (decode c.hello frame)
  on_first s a _ frame = (s, not_understood)

  unfoldable pub read_first : Server Prefix → Arrival → Option Frame → Server Prefix × Greeting
  read_first s a none = (s, not_understood)
  read_first s a (some frame) = on_first s a frame.frame_type frame

  unfoldable pub admitted :
      Server Prefix → Arrival → Result Rejection (Unit {0}) → Server Prefix × Greeting
  admitted s a (err r) = (s, refused r (status_of r) (retry_header r))
  admitted s a (ok _) = if a.is_upgraded then read_first s a a.first else (s, not_upgraded)

  unfoldable pub handle_agent : Server Prefix → Arrival → Server Prefix × Greeting
  handle_agent s a =
      let (guard, decision) =
        allow_connection n s.front.guard a.now a.remote (session_count s.hub) in
      admitted (record s { front = record s.front { guard = guard } }) a decision
