-- ===== src/Agent/Inbound/Tests.antt =====
-- An agent with an enabled channel and one subscriber, after agent/relay_test.go.
use talkeqidea.Common.{
  All, ◌≡◌, ◌≢◌, refl, sym, ◌∙◌, true, false, [], ◌∷◌, ◌++◌, none, some, arith, codes, text_eq,
}
use talkeqidea.Golang.Tables.{ascii_tables}
use talkeqidea.Config.Relay.{find_agent_channel}
use talkeqidea.Sanitize
use talkeqidea.Relay.Event.{Event, Renderer, FrameType, render}
use talkeqidea.Relay.Frame.{Json, Codecs}
use talkeqidea.Config.Settings.{AgentChannel}
use talkeqidea.Agent.Link.{Agent, publish}
use talkeqidea.Agent.Inbound.{
  enabled, send_line, inject_rendered, inject_into, cleaned, inject, on_frame,
}
use talkeqidea.Agent.Inbound.Safe.{IsConsoleLine, on_frame_safe}
use talkeqidea.Agent.Inbound.Returning.{publish-inject}

-- A pattern that prints the message, as `emote` would.
abbrev pub shouted : Renderer
shouted pattern d = some (pattern ++ d.message)

abbrev ooc : AgentChannel
ooc = record {
  name = codes "ooc";
  is_enabled = true;
  inbound_pattern = codes "emote ";
  inbound_tmpl = some (codes "emote ");
}

abbrev agent : Agent
agent = record {
  cfg = record {
    server_key = codes "east";
    short_name = codes "East";
    join_code = [];
    hub_address = [];
    token = [];
    fingerprint = [];
    is_plaintext = false;
    channels = ooc ∷ [];
  };
  out = [];
  subscribers = (λ line. none) ∷ [];
  echo = record { ttl = 15; limit = 4096; expiry = [] };
  version = [];
  is_connected = true;
  player_count = 3;
  source_up = true;
  dropped = 0;
}

abbrev hello : Event
hello = record {
  id = codes "a";
  origin = codes "west";
  origin_name = codes "West";
  channel = codes "ooc";
  name = codes "Soandso";
  message = codes "hi";
  hop = 1;
  sent_at = 0;
}

-- Every payload is written as one byte, and read as what the test needs.
abbrev pub fixed : {A : Type 0} → A → Json A
fixed a = record { marshal = λ b. some (codes "x"); unmarshal = λ s. some a }

abbrev pub codecs : Codecs
codecs = record {
  hello =
      fixed
        (record { protocol_version = 1; server_key = []; token = []; version = []; channels = [] });
  welcome = fixed (record {
    protocol_version = 1;
    server_key = [];
    short_name = [];
    hub_version = [];
    heartbeat_secs = 30;
  });
  event = fixed hello;
  status = fixed (record { player_count = 0; source_up = false; dropped_inbound = 0 });
  error = fixed (record { code = []; message = [] });
  test = fixed (record { id = []; is_echo = true; message = [] });
  test_reply = fixed (record {
    id = [];
    source_up = false;
    player_count = 0;
    version = [];
    injected_ok = false;
    detail = [];
  });
}

injected : (inject ascii_tables shouted agent 5 hello).1 ≡ codes "emote hi" ∷ []
unfolding inject inject_into inject_rendered cleaned enabled find_agent_channel send_line render
    Sanitize.name Sanitize.message Sanitize.is_safe_telnet_line text_eq
injected = refl

on_frame_safe_example :
    All IsConsoleLine
      (on_frame ascii_tables shouted codecs agent
        (codes "n")
        (codes "w")
        5
        (record { frame_type = FrameType.event; payload = codes "x" })).1
on_frame_safe_example =
    on_frame_safe ascii_tables shouted codecs agent (codes "n") (codes "w") 5
      (record { frame_type = FrameType.event; payload = codes "x" })

wrote : (inject ascii_tables shouted agent 5 hello).1 ≢ []
wrote h = absurd (cc (sym injected ∙ h))

publish-inject_example :
    ((publish codecs ascii_tables
        (inject ascii_tables shouted agent 5 hello).0
        (codes "n")
        7
        (codes "ooc")
        (codes "Soandso")
        (codes "hi")).1
      ≡ false)
    × ((publish codecs ascii_tables
          (inject ascii_tables shouted agent 5 hello).0
          (codes "n")
          7
          (codes "ooc")
          (codes "Soandso")
          (codes "hi")).0.out
        ≡ [])
unfolding inject inject_into inject_rendered cleaned enabled find_agent_channel send_line render
    Sanitize.name Sanitize.message Sanitize.is_safe_telnet_line text_eq
publish-inject_example =
    publish-inject codecs ascii_tables shouted agent 5 7 hello (codes "n") (codes "ooc")
      (codes "Soandso") (codes "hi") wrote refl refl (omega arith)
