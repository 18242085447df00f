-- ===== src/Discord.antt =====
-- discord/discord.go: the bot, apart from the library that talks to Discord.
pub mod Incoming
pub mod Commands
use talkeqidea.Common.{
  ℕ, ◌+◌, ◌≡◌, Bool, true, false, not, List, [], ◌∷◌, ◌++◌, Option, none, some, Text, codes,
  is_empty, text_eq, ltb, if◌then◌else◌, Result, ok, err, ◌>>=◌, ◌>>◌, refuse_if,
}
use talkeqidea.Golang.Strings.{trim_space}
use talkeqidea.Golang.Search.{contains, after_prefix, replace_byte}
use talkeqidea.Config.Routes.{DiscordConf}

-- What the session of the library answers: a member and the roles of a server.
pub record Member : Type 0 where
  pub roles : List Text
  pub nick : Text
  pub username : Text

pub record Role : Type 0 where
  pub id : Text
  pub name : Text

pub record DiscordServer : Type 0 where
  pub guild_member : Text → Text → Option Member
  pub guild_roles : Text → Option (List Role)

pub data DiscordError : Type 0 where
  no_client_id no_token no_server_id not_enabled not_connected : DiscordError

pub record Discord : Type 0 where
  pub is_connected : Bool
  pub config : DiscordConf
  pub id : Text
  pub last_message_id : Text
  pub last_channel_id : Text

unfoldable pub new_discord : DiscordConf → Result DiscordError Discord
new_discord config =
    let t : Discord = record {
      is_connected = false;
      config = config;
      id = [];
      last_message_id = [];
      last_channel_id = [];
    } in
    if not config.is_enabled
    then ok t
    else if is_empty config.client_id
    then err no_client_id
    else if is_empty config.token
    then err no_token
    else if is_empty config.server_id
    then err no_server_id
    else ok t

-- What `Send`, `EditMessage` and `LastSentMessage` ask first.
unfoldable pub check_ready : Discord → Result DiscordError (Unit {0})
check_ready t =
    if not t.config.is_enabled
    then err not_enabled
    else if not t.is_connected
    then err not_connected
    else ok tt

-- `Send`, by the message that the library says it sent: its identifier and its channel.
unfoldable pub note_sent : Discord → Option (Text × Text) → Discord × Bool
note_sent t none = (t, false)
note_sent t (some (id, channel)) =
    (record t { last_message_id = id; last_channel_id = channel }, true)

unfoldable pub send_checked :
    Discord → Option (Text × Text) → Result DiscordError (Unit {0}) → Discord × Bool
send_checked t sent (err e) = (t, false)
send_checked t sent (ok _) = note_sent t sent

unfoldable pub send : Discord → Option (Text × Text) → Discord × Bool
send t sent = send_checked t sent (check_ready t)

-- The channel and the message.
unfoldable pub last_sent_message : Discord → Result DiscordError (Text × Text)
last_sent_message t = do check_ready t; ok (t.last_channel_id, t.last_message_id)

-- The bytes that are not ASCII: every rune that has one is taken out whole.
unfoldable pub only_ascii : Text → Text
only_ascii [] = []
only_ascii (c ∷ cs) = let rest = only_ascii cs in if ltb c 128 then c ∷ rest else rest

unfoldable pub sanitize : Text → Text
sanitize s = replace_byte b'^' [] (only_ascii (replace_byte b'%' (codes "&PCT;") s))

-- What stands before the first of a text.
unfoldable pub before_part : Text → Text → Text
before_part part [] = []
before_part part (c ∷ cs) =
    let rest = c ∷ before_part part cs in
    elim (after_prefix part (c ∷ cs)) [ none ↦ rest | some _ ↦ [] ]

unfoldable pub after_part : Text → Text → Option Text
after_part part [] = after_prefix part []
after_part part (c ∷ cs) = elim (after_prefix part (c ∷ cs)) [
  | none ↦ after_part part cs
  | some rest ↦ some rest
]

abbrev pub ign_mark : Text
ign_mark = codes "IGN:"

-- `strings.Split(name, "IGN:")[1]`: up to the next mark.
unfoldable pub tagged_name : Text → Option Text
tagged_name name = elim (after_part ign_mark name) [
  | none ↦ none
  | some rest ↦ some (trim_space (before_part ign_mark rest))
]

-- The loop over the roles of the server, for one role of the member.
unfoldable pub tag_of : Text → List Role → Option Text
tag_of role [] = none
tag_of role (g ∷ rest) =
    let later = tag_of role rest in
    if not (text_eq (trim_space g.id) (trim_space role))
    then later
    else elim (tagged_name g.name) [ none ↦ later | some name ↦ some name ]

unfoldable pub first_tag : List Text → List Role → Text
first_tag [] roles = []
first_tag (role ∷ rest) roles = elim (tag_of role roles) [
  | none ↦ first_tag rest roles
  | some name ↦ name
]

unfoldable pub tag_in : Option Member → Option (List Role) → Text
tag_in none roles = []
tag_in (some m) none = []
tag_in (some m) (some roles) = first_tag m.roles roles

-- The name in a role that is tagged `IGN:`.
unfoldable pub ign_name : DiscordServer → Discord → Text → Text → Text
ign_name s t server_id user_id =
    let at = if is_empty server_id then t.config.server_id else server_id in
    tag_in (s.guild_member at user_id) (s.guild_roles at)
