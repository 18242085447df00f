-- ===== src/Client/Tests.antt =====
-- An agent with a console, and a hub with a channel that is posted to Discord.
use talkeqidea.Common.{◌≡◌, refl, true, false, [], ◌∷◌, some, codes, ℤ}
use talkeqidea.Golang.Tables.{ascii_tables}
use talkeqidea.Relay.Event.{Event}
use talkeqidea.Hub.Router.{new_router}
use talkeqidea.Agent.Inbound.Tests.{codecs}
use talkeqidea.Config.Whole.{Config}
use talkeqidea.Config.Whole.Tests.{given}
use talkeqidea.Requests.{discord_send, telnet_send, relay_publish}
use talkeqidea.Discord.{Discord, new_discord}
use talkeqidea.Databases.Registerdb.Tests.{asked}
use talkeqidea.Discord.Incoming.Tests.{discord}
use talkeqidea.Client.{
  World, Client, standalone, as_hub, on_all, on_message, source_discord, disable_hub_only_services,
}
use talkeqidea.Client.Local.{relayed_not_echoed}
use talkeqidea.Client.Bound.{AreTyped, agent_posts_nothing}

abbrev world : World Event
world = record {
  unicode = ascii_tables;
  execute = λ pattern d. some d.message;
  encode = λ e. some e;
  codecs = codecs;
  sent = λ channel message. some (codes "m", channel);
  title = λ name. name;
  remaining = λ timeout. codes "later";
  can_save = true;
}

abbrev hub : Client Event ℤ
hub = record {
  side = as_hub (record {
    router =
        new_router
          (record {
            name = codes "ooc";
            is_enabled = true;
            is_cross_server = true;
            discord_channel_id = codes "7";
            discord_pattern = codes "P";
            discord_template = some (codes "P");
          }
            ∷ [])
          0;
    sessions = [];
  });
  config = given;
  is_telnet_connected = true;
  is_api_connected = true;
  discord = discord;
  registrations = asked;
}

relayed_not_echoed_example :
    (on_message world hub
      (codes "a")
      5
      (relay_publish source_discord (codes "ooc") (codes "Bob") (codes "hi"))).1
    ≡ []
relayed_not_echoed_example =
    relayed_not_echoed world hub (codes "a") 5 (codes "ooc") (codes "Bob") (codes "hi")

abbrev bound : Config ℤ
bound = disable_hub_only_services given

abbrev idle : Discord
idle = record {
  is_connected = false;
  config = bound.discord;
  id = [];
  last_message_id = [];
  last_channel_id = [];
}

abbrev agent : Client Event ℤ
agent = record hub { side = standalone; config = bound; discord = idle }

agent_posts_nothing_example :
    AreTyped
      (on_all world agent 5 (
        (codes "a", discord_send (codes "7") (codes "hi"))
        ∷ (codes "b", telnet_send (codes "say hi"))
        ∷ [])).1
unfolding new_discord disable_hub_only_services
agent_posts_nothing_example =
    agent_posts_nothing world given agent 5
      ((codes "a", discord_send (codes "7") (codes "hi"))
        ∷ (codes "b", telnet_send (codes "say hi"))
        ∷ [])
      refl refl
