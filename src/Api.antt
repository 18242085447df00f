-- ===== src/Api.antt =====
-- api/api.go, api/register.go and api/relays.go: who asks to be known by a name in the game, and the
-- quests that ask the player. Times are seconds.
pub mod Silenced
mod Tests
use talkeqidea.Common.{
  ℕ, suc, ◌+◌, ◌*◌, ◌≡◌, Bool, true, false, not, ◌&&◌, ◌||◌, List, [], ◌∷◌, ◌++◌, Option, none,
  some, Text, codes, is_empty, text_eq, length, get_or, leb, ltb, map, if◌then◌else◌, TextMap,
  Result, ok, err,
}
use talkeqidea.Golang.Strings.{Unicode, to_lower}
use talkeqidea.Golang.Search.{split_on, has_prefix}
use talkeqidea.Config.Whole.{ApiConf}
use talkeqidea.Requests.{Request, discord_send}
use talkeqidea.Databases.Registerdb
use talkeqidea.Databases.Registerdb.{
  Registrations, RegisterEntry, RegisterError, code_expired, invalid_code, not_found, not_saved,
  in_queue, find_by_code, queued_entries, entry,
}
use talkeqidea.Databases.Userdb
use talkeqidea.Databases.Userdb.{Users}
use talkeqidea.Discord.{Discord, DiscordError, check_ready, last_sent_message}

pub data ApiError : Type 0 where
  not_enabled not_connected : ApiError
  no_message : DiscordError → ApiError

-- What a command changes; `sent` is what the subscribers were handed, in order.
pub record Commanded : Type 0 where
  pub discord : Discord
  pub registrations : Registrations
  pub sent : List Request

-- A `request.APICommand`: who wrote it, where, and what.
pub record Command : Type 0 where
  pub name : Text
  pub name_id : Text
  pub channel_id : Text
  pub message : Text

abbrev pub usage : Text
usage =
    codes
      "usage: `!register <character>`\nThis command will bind your discord account to provided Everquest character. Your messages in discord will be seen in game as this character name.\nTo change your character after registering, simply repeat process."

abbrev pub told : Text → Text → Text
told character status =
    codes "I sent a /tell to "
    ++ character
    ++ codes ", you have 2 minutes to go in game and [ accept ] it. Status: "
    ++ status

-- Whether there is an entry that still holds.
unfoldable pub is_waiting : ℕ → Option RegisterEntry → Option ℕ
is_waiting now none = none
is_waiting now (some e) =
    if not (text_eq e.status (codes "Denied")) && leb now e.timeout then some e.timeout else none

-- `deliver` is what the subscribers do with a request, `title` and `remaining` are the library's
-- title case and the time left in words.
module _ (deliver : Discord → Request → Discord) (u : Unicode) (title : Text → Text)
    (remaining : ℕ → Text) where
  unfoldable pub reply : Discord → Registrations → Request → Commanded
  reply d r request = record { discord = deliver d request; registrations = r; sent = request ∷ [] }

  -- The message that was sent is the one that is edited when the player answers.
  unfoldable pub register_sent :
      Command
      → Text
      → ℕ
      → Bool
      → Commanded
      → Result DiscordError (Text × Text)
      → Commanded × Result ApiError (Unit {0})
  register_sent req character now can_save c (err e) = (c, err (no_message e))
  register_sent req character now can_save c (ok (channel_id, message_id)) = (
    record c {
      registrations =
          Registerdb.set title c.registrations req.name_id req.name character channel_id message_id
            in_queue (now + 30) can_save;
    },
    ok tt,
  )

  unfoldable pub register_new :
      Command → Text → ℕ → Bool → Discord → Registrations → Commanded × Result ApiError (Unit {0})
  register_new req character now can_save d r =
      let c = reply d r (discord_send req.channel_id (told character in_queue)) in
      register_sent req character now can_save c (last_sent_message c.discord)

  unfoldable pub register_unless :
      Command
      → Text
      → ℕ
      → Bool
      → Discord
      → Registrations
      → Option ℕ
      → Commanded × Result ApiError (Unit {0})
  register_unless req character now can_save d r (some timeout) = (
    reply d r (
        discord_send req.channel_id
          (codes "!register denied: wait " ++ remaining timeout ++ codes " to change your name")),
    ok tt,
  )
  register_unless req character now can_save d r none = register_new req character now can_save d r

  -- The words after the command.
  unfoldable pub register :
      ApiConf
      → Command
      → ℕ
      → Bool
      → Discord
      → Registrations
      → List Text
      → Commanded × Result ApiError (Unit {0})
  register cfg req now can_save d r [] = (
    if cfg.is_register_enabled
        then reply d r (discord_send req.channel_id usage)
        else record { discord = d; registrations = r; sent = [] },
    ok tt,
  )
  register cfg req now can_save d r (character ∷ rest) =
      if cfg.is_register_enabled
      then register_unless req character now can_save d r (is_waiting now (entry r req.name_id))
      else (record { discord = d; registrations = r; sent = [] }, ok tt)

  -- The first word begins with an exclamation mark.
  unfoldable pub dispatch :
      ApiConf
      → Command
      → ℕ
      → Bool
      → Discord
      → Registrations
      → List Text
      → Commanded × Result ApiError (Unit {0})
  dispatch cfg req now can_save d r ((mark ∷ word) ∷ rest) =
      if text_eq (to_lower u word) (codes "register")
      then register cfg req now can_save d r rest
      else (record { discord = d; registrations = r; sent = [] }, ok tt)
  dispatch cfg req now can_save d r other =
      (record { discord = d; registrations = r; sent = [] }, ok tt)

  unfoldable pub command :
      ApiConf
      → Bool
      → Command
      → ℕ
      → Bool
      → Discord
      → Registrations
      → Commanded × Result ApiError (Unit {0})
  command cfg is_connected req now can_save d r =
      let nothing : Commanded = record { discord = d; registrations = r; sent = [] } in
      if not cfg.is_enabled
      then (nothing, err not_enabled)
      else if not is_connected
      then (nothing, err not_connected)
      else if not (has_prefix (codes "!") req.message)
      then (nothing, ok tt)
      else dispatch cfg req now can_save d r (split_on b' ' req.message)

-- What the quests are handed: whom to ask, for whom, and the code of the answer.
pub record Relay : Type 0 where
  pub action : Text
  pub from : Text
  pub target : Text
  pub code : Text

unfoldable pub relay_of : RegisterEntry → Relay
relay_of e = record {
  action = codes "register";
  from = e.discord_name;
  target = e.character_name;
  code = e.code;
}

unfoldable pub relays : Registrations → ℕ → Registrations × List Relay
relays r now = let (r', entries) = queued_entries r now in (r', map relay_of entries)

-- The two data bases, after a request.
pub record Confirmation : Type 0 where
  pub registrations : Registrations
  pub users : Users
  -- The message of the answer; `none` where the handler panicked, from which package net/http
  -- recovers.
  pub answer : Option Text

-- `find_by_code` gives the first two.
unfoldable pub error_text : RegisterError → Text
error_text code_expired = codes "code expired"
error_text invalid_code = codes "invalid code"
error_text not_found = codes "not found"
error_text not_saved = codes "save"

abbrev pub day : ℕ
day = 24 * 3600

unfoldable pub fst_of : {A B : Type 0} → A × B → A
fst_of (a, b) = a

unfoldable pub snd_of : {A B : Type 0} → A × B → B
snd_of (a, b) = b

-- The status that an action gives the entry; the answer is encoded from an empty one.
unfoldable pub set_status : Registrations → Users → RegisterEntry → Text → ℕ → Bool → Confirmation
set_status r users e status now can_save = record {
  registrations = fst_of (Registerdb.update r e.discord_id status (now + day) can_save);
  users = users;
  answer = some [];
}

-- `edited` is the error of `EditMessage`.
unfoldable pub edit_answer : Option Text → Text
edit_answer none = []
edit_answer (some why) = why

unfoldable pub accepted :
    Registrations → RegisterEntry → ℕ → Bool → Option Text → Users → Confirmation
accepted r e now can_save edited users =
    record (set_status r users e (codes "Confirmed") now can_save) {
      answer = some (edit_answer edited);
    }

-- `none` where the data base of users never answers.
unfoldable pub accept :
    Registrations
    → RegisterEntry
    → ℕ
    → Bool
    → Option Text
    → Option (Users × Bool)
    → Option Confirmation
accept r e now can_save edited none = none
accept r e now can_save edited (some (users, true)) = some (accepted r e now can_save edited users)
accept r e now can_save edited (some (users, false)) =
    some (record { registrations = r; users = users; answer = none })

-- Whether the file of the registrations and the one of the users can be written.
unfoldable pub act :
    Unicode
    → Registrations
    → Users
    → Text
    → ℕ
    → Bool
    → Bool
    → Option Text
    → Result RegisterError RegisterEntry
    → Option Confirmation
act u r users action now can_save can_save_users edited (err e) =
    some (record { registrations = r; users = users; answer = some (error_text e) })
act u r users action now can_save can_save_users edited (ok e) =
    if text_eq e.status (codes "Confirmed") || text_eq e.status (codes "Denied")
    then some
        (record { registrations = r; users = users; answer = some (codes "code used already") })
    else if text_eq (to_lower u action) (codes "deny")
    then some (set_status r users e (codes "Denied") now can_save)
    else if text_eq (to_lower u action) (codes "report")
    then some (set_status r users e (codes "Reported") now can_save)
    else if not (text_eq (to_lower u action) (codes "accept"))
    then some (record { registrations = r; users = users; answer = some [] })
    else accept r e now can_save edited
        (Userdb.set users e.discord_id e.character_name can_save_users)

unfoldable pub register_confirm :
    Unicode
    → Registrations
    → Users
    → Text
    → Text
    → ℕ
    → Bool
    → Bool
    → Option Text
    → Option Confirmation
register_confirm u r users code action now can_save can_save_users edited =
    if is_empty code
    then some (record { registrations = r; users = users; answer = some (codes "code required") })
    else if is_empty action
    then some (record { registrations = r; users = users; answer = some (codes "action required") })
    else act u r users action now can_save can_save_users edited (find_by_code r code now)
