-- ===== src/Client.antt =====
-- client/client.go: what the endpoints hand to each other through `onMessage`.
pub mod Local
pub mod Bound
pub mod Connecting
mod Tests
use talkeqidea.Common.{
  ℕ, suc, ◌+◌, ◌/◌, ◌≡◌, Bool, true, false, not, List, [], ◌∷◌, ◌++◌, Option, none, some, Text,
  codes, is_empty, text_eq, if◌then◌else◌, Result, ok, err,
}
use talkeqidea.Golang.Strings.{Unicode}
use talkeqidea.Relay.Event.{Event, Renderer, origin_discord, new_event}
use talkeqidea.Relay.Frame.{Codecs}
use talkeqidea.Hub.Core.{Hub}
use talkeqidea.Hub.Core
use talkeqidea.Agent.Link.{Agent}
use talkeqidea.Agent.Link
use talkeqidea.Config.Routes.{TelnetConf}
use talkeqidea.Config.Settings.{HubConfig}
use talkeqidea.Config.Whole.{Config}
use talkeqidea.Requests.{Request, discord_send, telnet_send, api_command, relay_publish}
use talkeqidea.Databases.Registerdb.{Registrations}
use talkeqidea.Discord.{Discord}
use talkeqidea.Discord
use talkeqidea.Telnet.Console.{TelnetError}
use talkeqidea.Telnet.Console
use talkeqidea.Api.{ApiError, Command, Commanded}
use talkeqidea.Api

-- `disableHubOnlyServices`.
unfoldable pub disable_hub_only_services : {F : Type 0} → Config F → Config F
disable_hub_only_services c = record c {
  discord = record c.discord { is_enabled = false };
  api = record c.api { is_enabled = false };
  sql_report = record c.sql_report { is_enabled = false };
}

abbrev pub source_discord : Text
source_discord = codes "discord"

-- The key and the short name of the source of a message that the hub observed itself.
unfoldable pub local_relay_identity : {F : Type 0} → HubConfig F → Text → Text × Text
local_relay_identity cfg source =
    if text_eq source source_discord
    then (origin_discord, codes "Discord")
    else if not (is_empty cfg.local_server_key)
    then (cfg.local_server_key, cfg.local_short_name)
    else (codes "local", codes "Local")

-- The side of the relay that this instance is: neither has nowhere to publish.
pub data Side (F : Type 0) : Type 0 where
  standalone : Side F
  as_hub : Hub F → Side F
  as_agent : Agent → Side F

-- What leaves the program: a message in a Discord channel, or a line on the console.
pub data Output : Type 0 where
  posted : Text → Text → Output
  typed : Text → Output

pub record Client (F N : Type 0) : Type 0 where
  pub side : Side F
  pub config : Config N
  pub is_telnet_connected : Bool
  pub is_api_connected : Bool
  pub discord : Discord
  pub registrations : Registrations

unfoldable pub local_event :
    {F : Type 0} → HubConfig F → Text → ℕ → Text → Text → Text → Text → Event
local_event cfg new_id now source channel name message =
    let (origin, origin_name) = local_relay_identity cfg source in
    record (new_event new_id (now / 1000000) channel name message) {
      origin = origin;
      origin_name = origin_name;
    }

unfoldable pub typed_of : Result TelnetError Text → List Output
typed_of (err e) = []
typed_of (ok line) = typed line ∷ []

-- The libraries that a message meets. `sent` is what Discord answers to a message: its identifier
-- and its channel.
pub record World (F : Type 0) : Type 0 where
  pub unicode : Unicode
  pub execute : Renderer
  pub encode : Event → Option F
  pub codecs : Codecs
  pub sent : Text → Text → Option (Text × Text)
  pub title : Text → Text
  pub remaining : ℕ → Text
  pub can_save : Bool

module _ {F : Type 0} (w : World F) where
  unfoldable pub posted_if : Text → Text → Discord × Bool → Discord × List Output
  posted_if channel message (d, true) = (d, posted channel message ∷ [])
  posted_if channel message (d, false) = (d, [])

  unfoldable pub post : Discord → Text → Text → Discord × List Output
  post d channel message = posted_if channel message (Discord.send d (w.sent channel message))

  unfoldable pub post_all : Discord → List (Text × Text) → Discord × List Output
  post_all d [] = (d, [])
  post_all d ((channel, message) ∷ rest) =
      let (d', first) = post d channel message in
      let (d'', others) = post_all d' rest in (d'', first ++ others)

  unfoldable pub as_pairs : List Request → List (Text × Text)
  as_pairs [] = []
  as_pairs (discord_send channel message ∷ rest) = (channel, message) ∷ as_pairs rest
  as_pairs (telnet_send line ∷ rest) = as_pairs rest
  as_pairs (api_command name channel id ign message ∷ rest) = as_pairs rest
  as_pairs (relay_publish source channel name message ∷ rest) = as_pairs rest

  -- What the API's subscriber makes of a reply.
  unfoldable pub deliver : Discord → Request → Discord
  deliver d request = Api.fst_of (post_all d (as_pairs (request ∷ [])))

module _ {F N : Type 0} (w : World F) where
  unfoldable pub with_discord : Client F N → Discord × List Output → Client F N × List Output
  with_discord c (d, out) = (record c { discord = d }, out)

  -- What the hub hands back for Discord is posted as it comes.
  unfoldable pub published : Client F N → Hub F × List (Text × Text) → Client F N × List Output
  published c (h, sends) = with_discord (record c { side = as_hub h }) (post_all w c.discord sends)

  unfoldable pub queued : Client F N → Agent × Bool → Client F N × List Output
  queued c (a, is_queued) = (record c { side = as_agent a }, [])

  unfoldable pub publish_at :
      Client F N → Side F → Text → ℕ → Text → Text → Text → Text → Client F N × List Output
  publish_at c standalone new_id now source channel name message = (c, [])
  publish_at c (as_hub h) new_id now source channel name message = published c (
      Core.publish w.unicode w.execute w.encode h now
        (local_event c.config.relay.hub new_id now source channel name message))
  publish_at c (as_agent a) new_id now source channel name message =
      queued c (Link.publish w.codecs w.unicode a new_id now channel name message)

  unfoldable pub on_relay_publish :
      Client F N → Text → ℕ → Text → Text → Text → Text → Client F N × List Output
  on_relay_publish c new_id now source channel name message =
      publish_at c c.side new_id now source channel name message

  unfoldable pub commanded :
      Client F N → Commanded × Result ApiError (Unit {0}) → Client F N × List Output
  commanded c (made, result) = (
    record c { discord = made.discord; registrations = made.registrations },
    Api.snd_of (post_all w c.discord (as_pairs w made.sent)),
  )

  unfoldable pub on_command : Client F N → ℕ → Text → Text → Text → Text → Client F N × List Output
  on_command c now name channel id message = commanded c (
      Api.command (deliver w) w.unicode w.title w.remaining c.config.api c.is_api_connected
        (record { name = name; name_id = id; channel_id = channel; message = message })
        (now / 1000000000) w.can_save c.discord c.registrations)

  -- The switch over the kind of the request. The new identifier is for what is relayed.
  unfoldable pub on_message : Client F N → Text → ℕ → Request → Client F N × List Output
  on_message c new_id now (api_command name channel id ign message) =
      on_command c now name channel id message
  on_message c new_id now (discord_send channel message) =
      with_discord c (post w c.discord channel message)
  on_message c new_id now (telnet_send line) =
      (c, typed_of (Console.send c.config.telnet c.is_telnet_connected line))
  on_message c new_id now (relay_publish source channel name message) =
      on_relay_publish c new_id now source channel name message

  -- The requests of one message, in order; an identifier for each.
  unfoldable pub on_all : Client F N → ℕ → List (Text × Request) → Client F N × List Output
  on_all c now [] = (c, [])
  on_all c now ((new_id, request) ∷ rest) =
      let (c', first) = on_message c new_id now request in
      let (c'', others) = on_all c' now rest in (c'', first ++ others)
