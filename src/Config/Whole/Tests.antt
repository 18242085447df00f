-- ===== src/Config/Whole/Tests.antt =====
-- A configuration of a server that stands alone, with a route each way.
use talkeqidea.Common.{◌*◌, refl, true, false, [], ◌∷◌, some, none, codes, err, ℤ, pos, text_eq}
use talkeqidea.Golang.Tables.{ascii_tables}
use talkeqidea.Guard.Core.{second}
use talkeqidea.Relay.JoinCode.{no_prefix}
use talkeqidea.Config.Relay
use talkeqidea.Config.Relay.{default_to}
use talkeqidea.Config.Relay.Tests.{whole, sparse}
use talkeqidea.Config.Routes.{
  Route, DiscordRoute, TelnetConf, EqLogConf, DiscordConf, verify_route, verify_routes,
  load_message_pattern, verify_telnet, verify_eqlog, verify_peqeditor, verify_discord,
  verify_discord_route, verify_discord_routes,
}
use talkeqidea.Config.Whole.{
  Config, SqlReportEntry, verify, verify_api, in_section, verify_sqlreport, verify_entries,
  verify_entry, with_default_paths, keep_alive_retry_duration, at_least_ten,
}
use talkeqidea.Config.Whole.Accepted.{IsAccepted, verify-IsAccepted}

abbrev pub ooc : Route
ooc = record {
  is_enabled = true;
  trigger = record {
    regex = codes "ooc";
    name_index = pos 1;
    message_index = pos 2;
    guild_index = pos 0;
    custom = [];
  };
  target = codes "discord";
  channel_id = codes "7";
  channel = [];
  guild_id = [];
  message_pattern = codes "P";
  template = none;
}

abbrev pub shouted : DiscordRoute
shouted = record {
  is_enabled = true;
  trigger_channel_id = codes "7";
  target = codes "telnet";
  channel = [];
  channel_id = codes "260";
  message_pattern = codes "Q";
  template = none;
  is_anyone_allowed = false;
}

abbrev pub console : TelnetConf
console = record {
  is_enabled = true;
  is_legacy_links = false;
  is_links_embedded = true;
  item_url = codes "i/";
  profile_url = [];
  is_server_announce_enabled = false;
  routes = ooc ∷ [];
}

abbrev pub logs : EqLogConf
logs = record { is_enabled = true; path = codes "log"; routes = ooc ∷ [] }

abbrev pub bot : DiscordConf
bot = record {
  is_enabled = true;
  token = codes "t";
  server_id = codes "s";
  client_id = codes "c";
  bot_status = [];
  routes = shouted ∷ [];
}

abbrev report : SqlReportEntry
report = record {
  channel_id = codes "9";
  query = codes "q";
  pattern = codes "R";
  pattern_template = none;
  refresh = codes "60s";
  refresh_duration = pos 0;
  next_report = 0;
  text = [];
  index = 0;
}

abbrev pub given : Config ℤ
given = record {
  is_keep_alive_enabled = true;
  keep_alive_retry = codes "60s";
  users_database_path = [];
  guilds_database_path = [];
  relay = record {
    mode = codes "standalone";
    hub = sparse;
    agent = record {
      server_key = [];
      short_name = [];
      join_code = [];
      hub_address = [];
      token = [];
      fingerprint = [];
      is_plaintext = false;
      channels = [];
    };
  };
  api = record {
    is_enabled = true;
    host = [];
    is_register_enabled = true;
    registration_database_path = codes "r";
  };
  discord = bot;
  telnet = console;
  eqlog = logs;
  peq_editor = record {
    is_enabled = false;
    is_sql_enabled = false;
    path = [];
    file_pattern = [];
    routes = [];
  };
  sql_report = record { is_enabled = true; entries = report ∷ [] };
}

-- The same, with its defaults and its templates.
abbrev checked : Config ℤ
checked = record given {
  users_database_path = codes "modern-eq-chat-users.txt";
  guilds_database_path = codes "./guilds.txt";
  api = record given.api { host = codes "127.0.0.1:9933" };
  discord = record bot { routes = record shouted { template = some (codes "Q") } ∷ [] };
  telnet = record console { routes = record ooc { template = some (codes "P") } ∷ [] };
  eqlog = record logs { routes = record ooc { template = some (codes "P") } ∷ [] };
  sql_report = record {
    is_enabled = true;
    entries =
        record report {
          pattern_template = some (codes "R");
          refresh_duration = pos (60 * second);
          next_report = 5;
        }
        ∷ [];
  };
}

verify-IsAccepted_example :
    IsAccepted (λ pattern. true) (λ s. some (pos (60 * second))) given checked
unfolding verify with_default_paths keep_alive_retry_duration at_least_ten in_section Relay.verify
    Relay.verify_mode verify_api verify_discord verify_discord_routes verify_discord_route
    verify_eqlog verify_routes verify_route load_message_pattern verify_peqeditor verify_sqlreport
    verify_entries verify_entry verify_telnet text_eq
verify-IsAccepted_example =
    verify-IsAccepted (λ pattern. true) (λ s. some (pos (60 * second))) ascii_tables whole
      (λ s. err no_prefix) 5 given checked refl
