-- ===== src/Discord/Incoming.antt =====
-- handleMessage of discord/discord_msg.go: what a message in a channel is turned into.
pub mod Unregistered
pub mod Tests
use talkeqidea.Common.{
  ℕ, zero, suc, ◌≡◌, Bool, true, false, not, ◌&&◌, ◌||◌, List, [], ◌∷◌, ◌++◌, Option, none, some,
  Text, codes, is_empty, text_eq, length, take, ltb, if◌then◌else◌, ℤ, pos, negsuc, Result, ok, err,
  ◌>>=◌, ◌>>◌, refuse_if,
}
use talkeqidea.Golang.Search.{has_prefix, decimal}
use talkeqidea.Config.Routes.{DiscordConf, DiscordRoute}
use talkeqidea.Requests.{Request, telnet_send, api_command, relay_publish}
use talkeqidea.Databases.Userdb.{Users, name}
use talkeqidea.Databases.Guilddb.{Guilds, guild_id}
use talkeqidea.Matching.{Stop, skipped, panicked, executed, Sent, and_then}
use talkeqidea.Discord.{Discord, DiscordServer, Member, sanitize, ign_name}

-- `discordgo.MessageCreate`; its text is `none` where the mentions in it cannot be replaced.
pub record Posted : Type 0 where
  pub guild_id : Text
  pub channel_id : Text
  pub author_id : Text
  pub author_name : Text
  pub content : Option Text

abbrev pub source_discord : Text
source_discord = codes "discord"

-- The text that is handled, or nothing.
unfoldable pub usable : Text → Option Text
usable msg =
    if ltb (length msg) 1
    then none
    else (let clean = sanitize (if ltb 4000 (length msg) then take 4000 msg else msg) in
        if ltb (length clean) 1 then none else some clean)

unfoldable pub content_of : Option Text → Option Text
content_of none = none
content_of (some msg) = usable msg

-- Whether a route listens to the channel.
unfoldable pub listens : Text → DiscordRoute → Bool
listens channel r = r.is_enabled && text_eq r.trigger_channel_id channel

-- The nickname of a member, or the name of the user.
unfoldable pub shown_name : Member → Text
shown_name m = let nick = sanitize m.nick in if is_empty nick then sanitize m.username else nick

unfoldable pub member_name : Text → Option Member → Text
member_name ign none = ign
member_name ign (some m) = if is_empty ign then shown_name m else ign

-- The first loop over the routes, for who has no name in the game.
unfoldable pub borrow_name : DiscordServer → Posted → Text → List DiscordRoute → Text
borrow_name s m ign [] = ign
borrow_name s m ign (r ∷ rest) =
    borrow_name s m
      (if listens m.channel_id r && r.is_anyone_allowed
        then member_name ign (s.guild_member m.guild_id m.author_id)
        else ign)
      rest

-- `execute` is a template on the destination channel, the name and the message.
module _ (execute : Text → Text → Text → Text → Option Text) where
  -- The target `telnet`; any other is only warned of.
  unfoldable pub to_telnet : DiscordRoute → Text → List Request
  to_telnet r text = if text_eq r.target (codes "telnet") then telnet_send text ∷ [] else []

  -- A template that is nil panics.
  unfoldable pub rendered : DiscordRoute → Text → Text → Option Text → Result Stop Text
  rendered r ign msg none = err panicked
  rendered r ign msg (some template) = executed (execute template r.channel_id ign msg)

  unfoldable pub addressed : DiscordRoute → Text → Text → Result Stop (List Request)
  addressed r ign msg =
      if text_eq r.target (codes "relay")
      then ok (
          relay_publish source_discord (if is_empty r.channel then r.channel_id else r.channel) ign
            msg
          ∷ [])
      else (do text ← rendered r ign msg r.template; ok (to_telnet r text))

  -- One round of the second loop.
  unfoldable pub route_message :
      Posted → Bool → Text → Text → DiscordRoute → Result Stop (List Request)
  route_message m is_unregistered ign msg r = do
    refuse_if (not (listens m.channel_id r)) skipped
    refuse_if (is_unregistered && not r.is_anyone_allowed) skipped
    addressed r ign msg

  -- A channel of a guild is heard by the guild.
  unfoldable pub guild_say : ℤ → Text → Text → List Request
  guild_say (pos zero) ign msg = []
  guild_say (pos (suc n)) ign msg =
      telnet_send (codes "guildsay " ++ ign ++ codes " " ++ decimal (suc n) ++ codes " " ++ msg)
      ∷ []
  guild_say (negsuc n) ign msg = []

  unfoldable pub route_all : Guilds → Posted → Bool → Text → Text → List DiscordRoute → Sent
  route_all guilds m is_unregistered ign msg [] =
      (guild_say (guild_id guilds m.channel_id) ign msg, true)
  route_all guilds m is_unregistered ign msg (r ∷ rest) =
      and_then (route_message m is_unregistered ign msg r)
        (route_all guilds m is_unregistered ign msg rest)

  -- From the name of the author on: who has none may borrow one.
  unfoldable pub routed : DiscordServer → Discord → Guilds → Posted → Text → Text → Sent
  routed s t guilds m ign msg =
      let borrowed = borrow_name s m ign t.config.routes in
      if not (is_empty ign)
      then route_all guilds m false ign msg t.config.routes
      else if is_empty borrowed
      then ([], true)
      else route_all guilds m true borrowed msg t.config.routes

  -- A text that begins with an exclamation mark is a command as well.
  unfoldable pub commands : Posted → Text → Text → List Request
  commands m ign msg =
      if has_prefix (codes "!") msg
      then api_command m.author_name m.channel_id m.author_id ign msg ∷ []
      else []

  unfoldable pub handled : DiscordServer → Discord → Guilds → Posted → Text → Text → Sent
  handled s t guilds m msg found =
      let ign = sanitize (if is_empty found then ign_name s t m.guild_id m.author_id else found) in
      if text_eq m.author_id t.id
      then ([], true)
      else and_then (ok (commands m ign msg)) (routed s t guilds m ign msg)

  -- The name of the author is asked for before the bot is told from others.
  unfoldable pub look_up :
      DiscordServer → Discord → Users → Guilds → Posted → Option Text → Option Sent
  look_up s t users guilds m none = some ([], true)
  look_up s t users guilds m (some msg) = elim (name users m.author_id) [
    | none ↦ none
    | some found ↦ some (handled s t guilds m msg found)
  ]

  -- What the subscribers are handed; `none` is a call that never returns.
  unfoldable pub handle_message :
      DiscordServer → Discord → Bool → Users → Guilds → Posted → Option Sent
  handle_message s t has_subscribers users guilds m =
      if not has_subscribers
      then some ([], true)
      else look_up s t users guilds m (content_of m.content)
