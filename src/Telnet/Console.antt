-- ===== src/Telnet/Console.antt =====
-- telnet/telnet.go: the connection to the console, apart from the socket.
use talkeqidea.Common.{
  ℕ, Bool, true, false, not, ◌&&◌, ◌||◌, List, [], ◌∷◌, ◌++◌, Option, none, some, Text, codes,
  is_empty, text_eq, length, ltb, if◌then◌else◌, Result, ok, err, ◌>>=◌, ◌>>◌, refuse_if,
}
use talkeqidea.Config.Routes.{Route, TelnetConf, message_pattern_template}
use talkeqidea.Requests.{Request, discord_send}
use talkeqidea.Databases.Guilddb.{Guilds}
use talkeqidea.Databases.Characterdb.{Characters}
use talkeqidea.Matching.{Engine, Stop, skipped, execute_loaded, Sent, and_then}
use talkeqidea.Telnet.Links.{LinkPatterns, convert_links}
use talkeqidea.Telnet.Messages.{parse_message}
use talkeqidea.Telnet.Online.{
  PlayerPatterns, PlayerDump, parse_player_entries, parse_players_online,
}

pub data TelnetError : Type 0 where
  not_enabled not_connected no_username : TelnetError

-- `sendLn` appends the line feed that ends a command.
unfoldable pub send_ln : Text → Text
send_ln s = s ++ b'\n' ∷ []

-- `Send`: the bytes that are written to the console.
unfoldable pub send : TelnetConf → Bool → Text → Result TelnetError Text
send c is_connected message =
    if not c.is_enabled
    then err not_enabled
    else if not is_connected
    then err not_connected
    else ok (send_ln message)

-- What `Connect` writes, by the prompt it meets.
unfoldable pub log_in : Bool → Text → Text → Result TelnetError (List Text)
log_in is_asked username password =
    let begin = send_ln (codes "echo off") ∷ send_ln (codes "acceptmessages on") ∷ [] in
    if is_asked
    then (if is_empty username
        then err no_username
        else ok (send_ln username ∷ send_ln password ∷ begin))
    else ok begin

module _ (e : Engine) where
  -- One route of the announcement that a server is up or down.
  unfoldable pub announce_route : Text → Route → Result Stop (List Request)
  announce_route event r = do
    text ← execute_loaded e (message_pattern_template e.parses r) [] []
    refuse_if (not (text_eq r.trigger.custom event)) skipped
    ok (discord_send r.channel_id text ∷ [])

  unfoldable pub announce : (Route → Bool) → Text → List Route → Sent
  announce takes event [] = ([], true)
  announce takes event (r ∷ rest) =
      let later = announce takes event rest in
      if takes r then and_then (announce_route event r) later else later

  -- The end of `Connect`; `is_first` is whether the first connection is still to come.
  unfoldable pub announce_up : TelnetConf → Bool → Bool → Sent
  announce_up c is_first has_subscribers =
      if not is_first && c.is_server_announce_enabled && has_subscribers
      then announce (λ r. r.is_enabled) (codes "serverup") c.routes
      else ([], true)

  -- `Disconnect`, and whether the console is connected after it.
  unfoldable pub announce_down : TelnetConf → Bool → Bool → Bool → Bool × Sent
  announce_down c is_first has_subscribers is_connected =
      if not c.is_enabled || not is_connected
      then (is_connected, ([], true))
      else if not is_first && c.is_server_announce_enabled && has_subscribers
      then (false, announce (λ r. true) (codes "serverdown") c.routes)
      else (false, ([], true))

-- What a line from the console changes.
pub record Console : Type 0 where
  pub dump : PlayerDump
  pub online : Characters

module _ (e : Engine) (links : LinkPatterns) (players : PlayerPatterns) (c : TelnetConf) where
  unfoldable pub routed : Guilds → Option Text → Sent
  routed guilds none = ([], false)
  routed guilds (some converted) = parse_message e c guilds converted

  -- The line as chat, if it is not about the players online. The fuel is for the item links.
  unfoldable pub as_chat : Guilds → ℕ → Console → Text → (Characters × Bool) → Console × Sent
  as_chat guilds fuel t msg (online, true) = (record t { online = online }, ([], true))
  as_chat guilds fuel t msg (online, false) =
      (record t { online = online }, routed guilds (convert_links links c fuel msg))

  unfoldable pub after_entries :
      Guilds → ℕ → Text → (PlayerDump × Characters) × Bool → Console × Sent
  after_entries guilds fuel msg ((dump, online), true) =
      (record { dump = dump; online = online }, ([], true))
  after_entries guilds fuel msg ((dump, online), false) =
      as_chat guilds fuel (record { dump = dump; online = online }) msg
        (parse_players_online players online msg)

  -- One round of `loop`.
  unfoldable pub on_line : Guilds → ℕ → Console → ℕ → Text → Console × Sent
  on_line guilds fuel t now msg =
      let parsed =
        after_entries guilds fuel msg (parse_player_entries players t.dump t.online now msg) in
      if ltb (length msg) 3 then (t, ([], true)) else parsed
