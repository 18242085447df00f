-- ===== src/Hub/Probes.antt =====
-- The probes of hub/control.go: pendingTests and TestAgent. A reply channel is its number.
pub mod Once
mod Tests
use talkeqidea.Common.{
  ℕ, suc, ◌+◌, ◌*◌, ◌/◌, ◌≡◌, Bool, true, false, List, [], ◌∷◌, ◌++◌, Option, none, some, Text,
  codes, is_empty, ◌==◌, if◌then◌else◌, TextMap, lookup, insert, erase, ℤ, pos, negsuc,
}
use talkeqidea.Golang.Strings.{Unicode}
use talkeqidea.Sanitize.{server_key}
use talkeqidea.Relay.Event.{FrameType}
use talkeqidea.Relay.Frame.{Frame, Json, Probe, ProbeReply, new_frame}
use talkeqidea.Guard.Core.{second}
use talkeqidea.Hub.Roster.{Roster, RosterEntry, entry}
use talkeqidea.Hub.Session.{Session, send}
use talkeqidea.Hub.Core.{Hub, session_of}

-- The channels by the identifier of the test they wait for, and the number of the next one.
pub record PendingTests : Type 0 where
  pub waiting : TextMap ℕ
  pub next_channel : ℕ

unfoldable pub new_pending_tests : PendingTests
new_pending_tests = record { waiting = []; next_channel = 0 }

unfoldable pub add : PendingTests → Text → PendingTests × ℕ
add p id = (
  record { waiting = insert id p.next_channel p.waiting; next_channel = suc p.next_channel },
  p.next_channel,
)

unfoldable pub remove : PendingTests → Text → PendingTests
remove p id = record p { waiting = erase id p.waiting }

-- The channel that was waiting is forgotten, and sent the reply.
unfoldable pub deliver_to :
    PendingTests → ProbeReply → Option ℕ → PendingTests × Option (ℕ × ProbeReply)
deliver_to p reply none = (p, none)
deliver_to p reply (some ch) = (record p { waiting = erase reply.id p.waiting }, some (ch, reply))

unfoldable pub deliver : PendingTests → ProbeReply → PendingTests × Option (ℕ × ProbeReply)
deliver p reply = deliver_to p reply (lookup reply.id p.waiting)

pub record TestResult : Type 0 where
  pub server_key : Text
  pub short_name : Text
  pub is_connected : Bool
  pub source_up : Bool
  pub player_count : ℕ
  pub round_trip : ℕ
  pub round_trip_ms : ℕ
  pub injected_ok : Bool
  pub detail : Text

-- A probe that is answered at once, or that waits on a channel.
pub data Probing : Type 0 where
  answered : TestResult → Probing
  waiting_on : ℕ → TestResult → Probing

unfoldable pub name_of : Option RosterEntry → Text
name_of none = []
name_of (some e) = e.short_name

-- What is known from the roster.
unfoldable pub first_result : Text → Option RosterEntry → TestResult
first_result key known = record {
  server_key = key;
  short_name = name_of known;
  is_connected = false;
  source_up = false;
  player_count = 0;
  round_trip = 0;
  round_trip_ms = 0;
  injected_ok = false;
  detail = [];
}

unfoldable pub timeout_or : ℤ → ℕ
timeout_or (pos n) = if n == 0 then 10 * second else n
timeout_or (negsuc n) = 10 * second

-- A session in the map is sent a frame.
unfoldable pub send_session : {F : Type 0} → Hub F → Text → Session F → F → Hub F
send_session h key s frame = record h { sessions = insert key (send s frame) h.sessions }

-- The probe is queued, when it can be encoded; `why` is the text of the error.
unfoldable pub probe_framed :
    Hub Frame
    → PendingTests
    → Session Frame
    → Text
    → Text
    → TestResult
    → Option Frame
    → Hub Frame × PendingTests × Probing
probe_framed h p s id why result none =
    (h, p, answered (record result { detail = codes "could not build the probe: " ++ why }))
probe_framed h p s id why result (some frame) =
    let (p', ch) = add p id in (send_session h result.server_key s frame, p', waiting_on ch result)

unfoldable pub probe_session :
    Json Probe
    → Hub Frame
    → PendingTests
    → Text
    → Bool
    → Text
    → TestResult
    → Option (Session Frame)
    → Hub Frame × PendingTests × Probing
probe_session j h p id with_echo why result none =
    (h, p, answered (record result { detail = codes "not connected" }))
probe_session j h p id with_echo why result (some s) =
    probe_framed h p s id why (record result { is_connected = true; short_name = s.short_name })
      (new_frame j FrameType.test (record {
        id = id;
        is_echo = with_echo;
        message = codes "Modern EQ Chat connection test from the hub";
      }))

-- `TestAgent` up to its `select`. The roster is read again on the way.
unfoldable pub begin_test :
    Unicode
    → Json Probe
    → Roster
    → Hub Frame
    → PendingTests
    → Text
    → Bool
    → Text
    → Text
    → Roster × (Hub Frame × PendingTests × Probing)
begin_test u j r h p raw with_echo id why =
    let key = server_key u raw in
    let (r', known) = entry u r key in
    (r', probe_session j h p id with_echo why (first_result key known) (session_of h key))

-- The detail of an answered probe.
unfoldable pub detail_of : ProbeReply → Text
detail_of reply =
    if is_empty reply.detail
    then (if reply.source_up
        then codes "ok"
        else codes "relay link is up, but the game server connection is down")
    else reply.detail

-- What the `select` gives: the reply and how long it took, or nothing within the timeout.
unfoldable pub finish_test : (ℕ → Text) → TestResult → ℤ → Option (ProbeReply × ℕ) → TestResult
finish_test written result timeout none = record result {
  detail = codes "no reply within " ++ written (timeout_or timeout);
}
finish_test written result timeout (some (reply, took)) = record result {
  round_trip = took;
  round_trip_ms = took / 1000000;
  source_up = reply.source_up;
  player_count = reply.player_count;
  injected_ok = reply.injected_ok;
  detail = detail_of reply;
}
