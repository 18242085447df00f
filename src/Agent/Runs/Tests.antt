-- ===== src/Agent/Runs/Tests.antt =====
-- An agent that was told of three players and then of a lost connection.
use talkeqidea.Common.{false, [], none, some, codes}
use talkeqidea.Golang.Tables.{ascii_tables}
use talkeqidea.Relay.Event.{Renderer}
use talkeqidea.Relay.Frame.{Json, Codecs}
use talkeqidea.Config.Settings.{AgentConf}
use talkeqidea.Agent.Link.{new_agent, set_player_count, disconnect}
use talkeqidea.Agent.Runs.{here, next, counted, disconnected}
use talkeqidea.Agent.Runs.Bounds.{IsBounded}
use talkeqidea.Agent.Runs.Reachable.{Reach-IsBounded}

abbrev conf : AgentConf
conf = record {
  server_key = codes "east";
  short_name = codes "East";
  join_code = [];
  hub_address = [];
  token = [];
  fingerprint = [];
  is_plaintext = false;
  channels = [];
}

abbrev unreadable : {A : Type 0} → Json A
unreadable = record { marshal = λ a. some (codes "x"); unmarshal = λ s. none }

abbrev codecs : Codecs
codecs = record {
  hello = unreadable;
  welcome = unreadable;
  event = unreadable;
  status = unreadable;
  error = unreadable;
  test = unreadable;
  test_reply = unreadable;
}

abbrev plain : Renderer
plain pattern d = some d.message

Reach-IsBounded_example : IsBounded (disconnect (set_player_count codecs (new_agent conf) 3))
Reach-IsBounded_example =
    Reach-IsBounded ascii_tables plain codecs conf
      (disconnect (set_player_count codecs (new_agent conf) 3))
      (next (next here (counted 3)) disconnected)
