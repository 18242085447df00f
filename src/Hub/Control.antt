-- ===== src/Hub/Control.antt =====
-- Changes that an operator makes while the hub runs: RenameAgent and ReplaceChannels of
-- hub/control.go, and JoinCode of hub/hub.go.
pub mod Channels
pub mod Names
use talkeqidea.Common.{
  ℕ, ◌≡◌, Bool, true, false, List, [], Option, none, some, Text, codes, is_empty, if◌then◌else◌,
  lookup, insert, Result, ok, err, or_refuse, pos,
}
use talkeqidea.Golang.Strings.{Unicode}
use talkeqidea.Sanitize.{server_key, telnet_line}
use talkeqidea.Relay.Frame.{Frame, Json}
use talkeqidea.Relay.JoinCode.{JoinCode, Base64, JoinCodeError, encode}
use talkeqidea.Config.Settings.{HubChannel, Float, HubConfig, AgentConf, RelayConfig}
use talkeqidea.Config.Relay.{ConfigError, verify}
use talkeqidea.Hub.Store.{SaveOutcome}
use talkeqidea.Hub.Roster.{Roster, RosterEntry, RosterError, rename, entry}
use talkeqidea.Hub.Router.{Router, set_channels}
use talkeqidea.Hub.Session.{Session}
use talkeqidea.Hub.Core.{Hub}
use talkeqidea.Hub.Admission.{Server}

pub data RenameError : Type 0 where
  nothing_left : RenameError
  roster_error : RosterError → RenameError

-- The live session takes the name too.
unfoldable pub rename_session : {F : Type 0} → Hub F → Text → Option (Session F) → Text → Hub F
rename_session h key none name = h
rename_session h key (some s) name = record h {
  sessions = insert key (record s { short_name = name }) h.sessions;
}

module _ {P : Type 0} where
  unfoldable pub settle_rename :
      Server P
      → Text
      → Text
      → Roster × Result RosterError (Unit {0})
      → Server P × Result RenameError (Unit {0})
  settle_rename s key name (r, err e) =
      (record s { front = record s.front { roster = r } }, err (roster_error e))
  settle_rename s key name (r, ok _) = (
    record s {
      front = record s.front { roster = r };
      hub = rename_session s.hub key (lookup key s.hub.sessions) name;
    },
    ok tt,
  )

  unfoldable pub rename_agent :
      Unicode → Server P → Text → Text → SaveOutcome → Server P × Result RenameError (Unit {0})
  rename_agent u s raw short_name outcome =
      let key = server_key u raw in
      let name = telnet_line u short_name 64 in
      if is_empty name
      then (s, err nothing_left)
      else settle_rename s key name (rename u s.front.roster key name outcome)

-- A hub's settings with nothing in them but the channels.
abbrev pub candidate : (f : Float) → List HubChannel → HubConfig f.F
candidate f channels = record {
  listen = [];
  agents_database = [];
  enroll_database = [];
  tls_mode = [];
  tls_cert_path = [];
  tls_key_path = [];
  tls_domain = [];
  advertise_addr = [];
  local_server_key = [];
  local_short_name = [];
  heartbeat_secs = pos 0;
  queue_size = pos 0;
  limits = record {
    max_agents = pos 0;
    connections_per_minute = pos 0;
    auth_failures_before_ban = pos 0;
    ban_duration = [];
    messages_per_second = f.zero;
    message_burst = pos 0;
    allowed_networks = [];
  };
  web = record { is_enabled = false; listen = []; password_hash = [] };
  channels = channels;
}

abbrev pub no_agent : AgentConf
no_agent = record {
  server_key = [];
  short_name = [];
  join_code = [];
  hub_address = [];
  token = [];
  fingerprint = [];
  is_plaintext = false;
  channels = [];
}

unfoldable pub settle_channels :
    {P F : Type 0}
    → Server P
    → Result ConfigError (RelayConfig F)
    → Server P × Result ConfigError (Unit {0})
settle_channels s (err e) = (s, err e)
settle_channels s (ok c) =
    (record s { hub = record s.hub { router = set_channels s.hub.router c.hub.channels } }, ok tt)

unfoldable pub replace_channels :
    {P : Type 0}
    → Unicode
    → (Text → Bool)
    → (Text → Result JoinCodeError JoinCode)
    → Float
    → Server P
    → List HubChannel
    → Server P × Result ConfigError (Unit {0})
replace_channels u parses parse f s channels = settle_channels s (
    verify u parses f parse
      (record { mode = codes "hub"; hub = candidate f channels; agent = no_agent }))

-- What a join code is made of.
unfoldable pub code_for : Text → Text → Text → Text → RosterEntry → JoinCode
code_for listen advertise_addr fingerprint token e = record {
  address = if is_empty advertise_addr then listen else advertise_addr;
  server_key = e.server_key;
  token = token;
  fingerprint = fingerprint;
}

pub data CodeError : Type 0 where
  not_found not_encoded : CodeError

-- With the address the hub listens on, the one it advertises and its fingerprint.
module _ (u : Unicode) (b : Base64) (json : Json JoinCode) where
  unfoldable pub code_found : Text → Text → Text → Text → Option RosterEntry → Result CodeError Text
  code_found listen advertise_addr fingerprint token none = err not_found
  code_found listen advertise_addr fingerprint token (some e) =
      or_refuse (encode b json (code_for listen advertise_addr fingerprint token e)) not_encoded

  unfoldable pub join_code :
      Roster → Text → Text → Text → Text → Text → Roster × Result CodeError Text
  join_code r listen advertise_addr fingerprint raw token =
      let (r', known) = entry u r raw in
      (r', code_found listen advertise_addr fingerprint token known)
