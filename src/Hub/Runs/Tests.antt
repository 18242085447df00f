-- ===== src/Hub/Runs/Tests.antt =====
-- A hub that an agent of the roster connects to, with what happens then.

use talkeqidea.Common.{
  ◌≡◌, refl, true, [], none, some, ◌*◌, Text, codes, text_eq, lookup, erase, ok, err,
}
use talkeqidea.Golang.Tables.{ascii_tables}
use talkeqidea.Sanitize.{server_key}
use talkeqidea.Relay.Event.{FrameType}
use talkeqidea.Relay.Frame.{Frame, Json, Codecs, decode, new_frame, framed}
use talkeqidea.Relay.JoinCode.{not_json}
use talkeqidea.Config.Relay.Tests.{whole}
use talkeqidea.Agent.Inbound.Tests.{codecs, fixed, shouted}
use talkeqidea.Guard.Core.{
  second, allow_connection, sweep, is_allowed, host_of, admit_listed, standing_ban,
}
use talkeqidea.Hub.Store.{saved, refresh, refresh_from}
use talkeqidea.Hub.Router.{new_router}
use talkeqidea.Hub.Roster.{authenticate, find_token, candidates, claimed_first}
use talkeqidea.Hub.Roster.Tests.{roster}
use talkeqidea.Hub.Session.{Session, new_session}
use talkeqidea.Hub.Core.{session_count}
use talkeqidea.Hub.Probes.{new_pending_tests}
use talkeqidea.Hub.Enrollment.{Enroll}
use talkeqidea.Hub.Enrollment.Tests.{text_netip, front, writes}
use talkeqidea.Hub.Admission.{
  Server, Arrival, connected, welcome_agent, settle_agent, on_hello, on_first, read_first, admitted,
  handle_agent,
}
use talkeqidea.Hub.Admission.Token.{IsProven, handle_agent_sound}
use talkeqidea.Hub.Runs.{World, arrived, here, next}
use talkeqidea.Hub.Runs.Arriving.{IsSound}
use talkeqidea.Hub.Runs.Sound.{Reach-IsSound}

-- A hello of the agent `east`, whatever the bytes.
abbrev hellos : Codecs
hellos = record codecs {
  hello = fixed (record {
    protocol_version = 1;
    server_key = codes "west";
    token = codes "t1";
    version = [];
    channels = [];
  });
}

abbrev enrolls : Json Enroll
enrolls = record { marshal = λ e. none; unmarshal = λ s. none }

abbrev server : Server Text
server = record {
  front = record front { roster = roster };
  hub = record { router = new_router [] 0; sessions = [] };
  queue_size = 16;
  heartbeat_secs = 30;
  tests = new_pending_tests;
  next_id = 0;
}

abbrev arrival : Arrival
arrival = record {
  now = 5 * second;
  remote = codes "a";
  is_upgraded = true;
  first = some (record { frame_type = FrameType.hello; payload = codes "x" });
  writes = writes;
  seen = saved 9;
  minted = none;
  is_encoded = true;
  is_delivered = true;
}

abbrev east_session : Session Frame
east_session = new_session 0 (codes "east") (codes "east") 16 (5 * second)

is_let_in :
    (handle_agent text_netip ascii_tables text_eq hellos enrolls server arrival).1
    ≡ connected east_session
unfolding handle_agent admitted read_first on_first on_hello settle_agent welcome_agent decode
    allow_connection sweep is_allowed host_of admit_listed standing_ban session_count lookup
    authenticate find_token candidates claimed_first server_key refresh refresh_from text_eq erase
    new_frame framed
is_let_in = refl

handle_agent_sound_example :
    ((allow_connection text_netip server.front.guard arrival.now arrival.remote
        (session_count server.hub)).1
      ≡ ok tt)
    × IsProven text_netip ascii_tables text_eq hellos enrolls server arrival
        (handle_agent text_netip ascii_tables text_eq hellos enrolls server arrival).0
        east_session
handle_agent_sound_example =
    handle_agent_sound text_netip ascii_tables text_eq hellos enrolls server arrival east_session
      is_let_in

abbrev world : World
world = record {
  netip = text_netip;
  unicode = ascii_tables;
  verify = text_eq;
  codecs = hellos;
  enroll_json = enrolls;
  execute = shouted;
  parses = λ pattern. true;
  parse = λ code. err not_json;
  float = whole;
}

abbrev joined : Server Text
joined = (handle_agent text_netip ascii_tables text_eq hellos enrolls server arrival).0

Reach-IsSound_example : IsSound joined
Reach-IsSound_example = Reach-IsSound world server joined refl (next here (arrived arrival))
