-- ===== src/Hub/Runs.antt =====
-- Runs of a hub: connections, frames, departures, what an operator does there and on the pages, and
-- what other processes write, in any order.
pub mod Kept
pub mod Arriving
pub mod Handling
pub mod Operating
pub mod Sound
mod Tests
use talkeqidea.Common.{
  ℕ, ◌≡◌, Bool, true, false, List, [], Option, none, some, Text, lookup, insert, Result,
}
use talkeqidea.Golang.Strings.{Unicode}
use talkeqidea.Relay.Event.{Event, FrameType, Renderer}
use talkeqidea.Relay.Frame.{Frame, Json, Codecs, new_frame}
use talkeqidea.Relay.JoinCode.{JoinCode, JoinCodeError}
use talkeqidea.Config.Settings.{HubChannel, Float}
use talkeqidea.Guard.Core.{Netip}
use talkeqidea.Hub.Store.{SaveOutcome, Disk}
use talkeqidea.Hub.Enroll.{EnrollStore, EnrollEntry, create, revoke, pending}
use talkeqidea.Hub.Roster
use talkeqidea.Hub.Roster.{RosterEntry, set_enabled, entries_sorted}
use talkeqidea.Hub.Session.{Session, take_head, close}
use talkeqidea.Hub.Core.{is_same, remove_session, disconnect, publish}
use talkeqidea.Hub.Enrollment.{Enroll, Front}
use talkeqidea.Hub.Probes.{begin_test, remove}
use talkeqidea.Hub.Admission.{Server, Arrival, handle_agent}
use talkeqidea.Hub.Frames.{set_session, on_frame, published}
use talkeqidea.Hub.Control.{rename_agent, replace_channels}

-- What is outside the hub.
pub record World : Type 1 where
  pub netip : Netip
  pub unicode : Unicode
  pub verify : Text → Text → Bool
  pub codecs : Codecs
  pub enroll_json : Json Enroll
  pub execute : Renderer
  pub parses : Text → Bool
  pub parse : Text → Result JoinCodeError JoinCode
  pub float : Float

-- A test is begun on the hub's own parts.
unfoldable pub test_agent :
    {P : Type 0} → Unicode → Codecs → Server P → Text → Bool → Text → Text → Server P
test_agent u c s raw with_echo id why =
    let (r, (h, p, _)) = begin_test u c.test s.front.roster s.hub s.tests raw with_echo id why in
    record s { front = record s.front { roster = r }; hub = h; tests = p }

module _ {P : Type 0} where
  abbrev pub with_roster : Server P → Roster.Roster → Server P
  with_roster s r = record s { front = record s.front { roster = r } }

  abbrev pub with_enroll : Server P → EnrollStore → Server P
  with_enroll s e = record s { front = record s.front { enroll = e } }

module _ (w : World) where
  open w use {netip, unicode, verify, codecs, enroll_json, execute, parses, parse, float}
  open netip use {Prefix}

  -- `x` is a session of the map, or one that left it and whose last frame is still being handled.
  pub data Step (s : Server Prefix) : Server Prefix → Type 0 where
    arrived : (a : Arrival) → Step s (handle_agent netip unicode verify codecs enroll_json s a).0
    received :
        (key : Text) (x : Session Frame) (now : ℕ) (is_within_rate : Bool) (frame : Frame)
        → lookup key s.hub.sessions ≡ some x
        → Step s (on_frame unicode execute codecs s now x is_within_rate frame).0
    received_late :
        (x : Session Frame) (now : ℕ) (is_within_rate : Bool) (frame : Frame)
        → is_same x (lookup x.server_key s.hub.sessions) ≡ false
        → Step s (on_frame unicode execute codecs s now x is_within_rate frame).0
    written :
        (key : Text) (x : Session Frame)
        → lookup key s.hub.sessions ≡ some x
        → Step s (record s { hub = set_session s.hub (take_head x x.out) })
    closed :
        (key : Text) (x : Session Frame)
        → lookup key s.hub.sessions ≡ some x
        → Step s (record s { hub = set_session s.hub (close x) })
    left : (x : Session Frame) → Step s (record s { hub = remove_session s.hub x })
    discord_said :
        (now : ℕ) (e : Event)
        → Step s
            (published s
              (publish unicode execute (new_frame codecs.event FrameType.event) s.hub now e)).0
    tested :
        (raw : Text) (with_echo : Bool) (id why : Text)
        → Step s (test_agent unicode codecs s raw with_echo id why)
    given_up : (id : Text) → Step s (record s { tests = remove s.tests id })
    renamed :
        (raw short_name : Text) (o : SaveOutcome)
        → Step s (rename_agent unicode s raw short_name o).0
    -- What the pages do with the agents and the codes.
    enabled_set :
        (raw : Text) (is_enabled : Bool) (o : SaveOutcome)
        → Step s (with_roster s (set_enabled unicode s.front.roster raw is_enabled o).0)
    removed :
        (raw : Text) (o : SaveOutcome)
        → Step s (with_roster s (Roster.remove unicode s.front.roster raw o).0)
    agents_listed : Step s (with_roster s (entries_sorted s.front.roster).0)
    code_created :
        (raw short_name : Text) (ttl now : ℕ) (o : SaveOutcome) (id : Text)
        (made : Option (Text × Text))
        → Step s (with_enroll s (create unicode s.front.enroll raw short_name ttl now o id made).0)
    code_revoked :
        (id : Text) (o : SaveOutcome) → Step s (with_enroll s (revoke s.front.enroll id o).0)
    codes_listed : (now : ℕ) → Step s (with_enroll s (pending s.front.enroll now).0)
    -- What another process does to the two files.
    roster_written :
        (d : Disk RosterEntry) → Step s (with_roster s (record s.front.roster { disk = d }))
    codes_written :
        (d : Disk EnrollEntry) → Step s (with_enroll s (record s.front.enroll { disk = d }))
    disconnected : Step s (record s { hub = (disconnect s.hub).0 })
    reloaded :
        (channels : List HubChannel)
        → Step s (replace_channels unicode parses parse float s channels).0

  -- What a hub with no sessions can become.
  pub data Reach (s : Server Prefix) : Server Prefix → Type 0 where
    here : Reach s s
    next : {a b : Server Prefix} → Reach s a → Step a b → Reach s b
