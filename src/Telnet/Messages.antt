-- ===== src/Telnet/Messages.antt =====
-- parseMessage of telnet/telnet_msg.go, on a line whose item links were converted.
pub mod Disabled
mod Tests
use talkeqidea.Common.{
  ℕ, ◌≡◌, Bool, true, false, not, ◌&&◌, List, [], ◌∷◌, ◌++◌, Option, none, some, Text, codes,
  text_eq, is_empty, length, leb, ltb, ◌==◌, if◌then◌else◌, ℤ, pos, negsuc, Result, ok, err, ◌>>=◌,
  ◌>>◌, refuse_if, or_refuse,
}
use talkeqidea.Golang.Search.{replace_all, atoi}
use talkeqidea.Config.Routes.{Route, TelnetConf, message_pattern_template, relay_channel}
use talkeqidea.Requests.{Request, discord_send, relay_publish}
use talkeqidea.Databases.Guilddb.{Guilds, channel_id}
use talkeqidea.Matching.{
  Engine, Stop, skipped, match_route, element, group, execute_loaded, Sent, and_then, to_discord,
}

abbrev pub source_telnet : Text
source_telnet = codes "telnet"

abbrev pub global_guild : Text
global_guild = codes "INSERTGLOBALGUILDCHANNELHERE"

-- The guild's own channel, or the one that the route has unless that is the placeholder.
unfoldable pub guild_channel : Route → Text → Text → Result Stop Route
guild_channel r gid channel =
    if is_empty channel
    then (if text_eq r.channel_id global_guild
        then err skipped
        else ok (record r { guild_id = gid }))
    else ok (record r { guild_id = gid; channel_id = channel })

unfoldable pub guild_found : Guilds → Route → Text → Option ℤ → Result Stop Route
guild_found guilds r gid none = err skipped
guild_found guilds r gid (some id) = guild_channel r gid (channel_id guilds id)

-- The route with the channel of the guild that the line names, if it names one.
unfoldable pub guild_route : Guilds → List Text → Route → ℤ → Result Stop Route
guild_route guilds m r (pos i) =
    if ltb 0 i && ltb i (length m)
    then (element m i >>= λ gid. guild_found guilds r gid (atoi gid))
    else ok r
guild_route guilds m r (negsuc i) = ok r

-- The name as a link to a profile.
unfoldable pub profiled : Text → Text → Text
profiled url name =
    if is_empty url then name else codes "[" ++ name ++ codes "](<" ++ url ++ name ++ codes ">)"

module _ (e : Engine) (conf : TelnetConf) where
  unfoldable pub decorated : Route → Text → Text → Result Stop (List Request)
  decorated r name message = do
    let shown = profiled conf.profile_url name
    text ← execute_loaded e (message_pattern_template e.parses r) shown message
    to_discord r text

  unfoldable pub addressed : Route → Text → Text → Result Stop (List Request)
  addressed r name message =
      if text_eq r.target (codes "relay")
      then ok (relay_publish source_telnet (relay_channel r) name message ∷ [])
      else decorated r name message

  -- One round of the loop over the routes.
  unfoldable pub route_message : Guilds → Text → Route → Result Stop (List Request)
  route_message guilds msg r = do
    refuse_if (not (is_empty r.trigger.custom)) skipped
    m ← match_route e r.trigger.regex msg
    message ← group r.trigger.message_index m
    name ← group r.trigger.name_index m
    r' ← guild_route guilds m r r.trigger.guild_index
    addressed r' name message

  unfoldable pub route_all : Guilds → Text → List Route → Sent
  route_all guilds msg [] = ([], true)
  route_all guilds msg (r ∷ rest) =
      and_then (route_message guilds msg r) (route_all guilds msg rest)

  unfoldable pub parse_message : Guilds → Text → Sent
  parse_message guilds converted =
      route_all guilds (replace_all (codes "&PCT;") (codes "%") converted) conf.routes
