-- ===== src/Config/Routes.antt =====
-- config/route.go, and the sections of the configuration that hold routes: config_telnet.go,
-- config_eqlog.go, config_peqeditor.go and config_discord.go. A parsed template is its text.
pub mod Loaded
use talkeqidea.Common.{
  ℕ, suc, ◌+◌, ◌≡◌, Bool, true, false, not, List, [], ◌∷◌, Option, none, some, Text, is_empty,
  if◌then◌else◌, ℤ, Result, ok, err, refuse_if, ◌>>=◌, ◌>>◌,
}

-- `config.Trigger`.
pub record Trigger : Type 0 where
  pub regex : Text
  pub name_index : ℤ
  pub message_index : ℤ
  pub guild_index : ℤ
  pub custom : Text

pub record Route : Type 0 where
  pub is_enabled : Bool
  pub trigger : Trigger
  pub target : Text
  pub channel_id : Text
  pub channel : Text
  pub guild_id : Text
  pub message_pattern : Text
  pub template : Option Text

pub data RouteError : Type 0 where
  bad_template no_channel no_path no_file_pattern : RouteError

-- A template that was not loaded is parsed now, and an error of that ignored.
unfoldable pub loaded_or : (Text → Bool) → Text → Option Text → Option Text
loaded_or parses pattern (some t) = some t
loaded_or parses pattern none = if parses pattern then some pattern else none

unfoldable pub message_pattern_template : (Text → Bool) → Route → Option Text
message_pattern_template parses r = loaded_or parses r.message_pattern r.template

unfoldable pub relay_channel : Route → Text
relay_channel r = if is_empty r.channel then r.channel_id else r.channel

unfoldable pub load_message_pattern : (Text → Bool) → Route → Result RouteError Route
load_message_pattern parses r =
    if not r.is_enabled
    then ok r
    else if parses r.message_pattern
    then ok (record r { template = some r.message_pattern })
    else err bad_template

-- The loop of the `Verify` of a section over its routes.
unfoldable pub verify_route : (Text → Bool) → Route → Result RouteError Route
verify_route parses r =
    if is_empty r.channel_id then err no_channel else load_message_pattern parses r

unfoldable pub verify_routes : (Text → Bool) → List Route → Result RouteError (List Route)
verify_routes parses [] = ok []
verify_routes parses (r ∷ rest) = do
  r' ← verify_route parses r
  rest' ← verify_routes parses rest
  ok (r' ∷ rest')

-- `config.Telnet`, as far as the endpoint reads it.
pub record TelnetConf : Type 0 where
  pub is_enabled : Bool
  pub is_legacy_links : Bool
  pub is_links_embedded : Bool
  pub item_url : Text
  pub profile_url : Text
  pub is_server_announce_enabled : Bool
  pub routes : List Route

unfoldable pub verify_telnet : (Text → Bool) → TelnetConf → Result RouteError TelnetConf
verify_telnet parses c =
    if c.is_enabled
    then (do routes ← verify_routes parses c.routes; ok (record c { routes = routes }))
    else ok c

pub record EqLogConf : Type 0 where
  pub is_enabled : Bool
  pub path : Text
  pub routes : List Route

unfoldable pub verify_eqlog : (Text → Bool) → EqLogConf → Result RouteError EqLogConf
verify_eqlog parses c =
    if c.is_enabled
    then (do routes ← verify_routes parses c.routes; ok (record c { routes = routes }))
    else ok c

-- `config.PEQEditor` with its one service.
pub record PeqEditorConf : Type 0 where
  pub is_enabled : Bool
  pub is_sql_enabled : Bool
  pub path : Text
  pub file_pattern : Text
  pub routes : List Route

unfoldable pub verify_peqeditor : (Text → Bool) → PeqEditorConf → Result RouteError PeqEditorConf
verify_peqeditor parses c =
    if not c.is_enabled then ok c else if not c.is_sql_enabled then ok c else (do
      refuse_if (is_empty c.path) no_path
      refuse_if (is_empty c.file_pattern) no_file_pattern
      routes ← verify_routes parses c.routes
      ok (record c { routes = routes }))

-- `config.DiscordRoute`; its template is loaded whether or not it is enabled.
pub record DiscordRoute : Type 0 where
  pub is_enabled : Bool
  pub trigger_channel_id : Text
  pub target : Text
  pub channel : Text
  pub channel_id : Text
  pub message_pattern : Text
  pub template : Option Text
  pub is_anyone_allowed : Bool

unfoldable pub verify_discord_route : (Text → Bool) → DiscordRoute → Result RouteError DiscordRoute
verify_discord_route parses r =
    if is_empty r.channel_id
    then err no_channel
    else if parses r.message_pattern
    then ok (record r { template = some r.message_pattern })
    else err bad_template

unfoldable pub verify_discord_routes :
    (Text → Bool) → List DiscordRoute → Result RouteError (List DiscordRoute)
verify_discord_routes parses [] = ok []
verify_discord_routes parses (r ∷ rest) = do
  r' ← verify_discord_route parses r
  rest' ← verify_discord_routes parses rest
  ok (r' ∷ rest')

pub record DiscordConf : Type 0 where
  pub is_enabled : Bool
  pub token : Text
  pub server_id : Text
  pub client_id : Text
  pub bot_status : Text
  pub routes : List DiscordRoute

unfoldable pub verify_discord : (Text → Bool) → DiscordConf → Result RouteError DiscordConf
verify_discord parses c =
    if c.is_enabled
    then (do routes ← verify_discord_routes parses c.routes; ok (record c { routes = routes }))
    else ok c
