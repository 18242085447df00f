-- ===== src/Api/Silenced.antt =====
-- What a registration that is confirmed does to the bot: api/register.go, userdb/userdb.go and
-- discord/discord_msg.go.
use talkeqidea.Common.{
  ℕ, ◌≡◌, Bool, true, false, Option, none, some, Text, codes, text_eq, is_empty, ok, arith, refl,
  ap, ◌∙◌,
}
use talkeqidea.Golang.Strings.{Unicode, to_lower}
use talkeqidea.Golang.Search.{is_some}
use talkeqidea.Databases.Registerdb.{Registrations, RegisterEntry, find_by_code}
use talkeqidea.Databases.Userdb.{Users, set}
use talkeqidea.Databases.Userdb.Blocked.{set-some, name_blocked}
use talkeqidea.Databases.Guilddb.{Guilds}
use talkeqidea.Discord.{Discord, DiscordServer}
use talkeqidea.Discord.Incoming.{Posted, content_of, look_up, handle_message}
use talkeqidea.Api.{Confirmation, register_confirm, act, accept, accepted, set_status}

act-accept :
    (u : Unicode) (r : Registrations) (users : Users) (action : Text) (now : ℕ)
    (can_save can_save_users : Bool) (edited : Option Text) (e : RegisterEntry)
    → text_eq e.status (codes "Confirmed") ≡ false
    → text_eq e.status (codes "Denied") ≡ false
    → to_lower u action ≡ codes "accept"
    → act u r users action now can_save can_save_users edited (ok e)
      ≡ accept r e now can_save edited (set users e.discord_id e.character_name can_save_users)
unfolding act text_eq accept
act-accept u r users action now can_save can_save_users edited e not_confirmed not_denied
      is_accept =
    rw (not_confirmed, not_denied, is_accept)

accept-some :
    (r : Registrations) (e : RegisterEntry) (now : ℕ) (can_save : Bool) (edited : Option Text)
    (users : Users) (returns : Bool)
    → (c : Confirmation) × (accept r e now can_save edited (some (users, returns)) ≡ some c)
      × (is_some c.answer ≡ returns)
      × (c.users ≡ users)
unfolding accept accepted set_status
accept-some r e now can_save edited users true =
    (accepted r e now can_save edited users, refl, refl, refl)
accept-some r e now can_save edited users false =
    (record { registrations = r; users = users; answer = none }, refl, refl, refl)

module _ (execute : Text → Text → Text → Text → Option Text) (s : DiscordServer) (t : Discord)
    (guilds : Guilds) (m : Posted) where
  look_up-none :
      (users : Users) (msg : Text)
      → users.is_locked ≡ true
      → look_up execute s t users guilds m (some msg) ≡ none
  unfolding look_up
  look_up-none users msg locked = grind (arith, name_blocked users m.author_id locked)

  handle_message-none :
      (users : Users) (msg : Text)
      → users.is_locked ≡ true
      → content_of m.content ≡ some msg
      → handle_message execute s t true users guilds m ≡ none
  unfolding handle_message
  handle_message-none users msg locked content =
      ap (look_up execute s t users guilds m) content ∙ look_up-none users msg locked

  -- When a player confirms a registration that is neither confirmed nor denied, with the lock of the
  -- users free, the handler of the request ends: with an answer where the map of the users was made,
  -- and with a panic where it is nil. Either way, from then on the handler of every Discord message
  -- whose text can be used never returns, where there are subscribers.
  pub confirmed_silences :
      (u : Unicode) (r : Registrations) (users : Users) (code action : Text) (now : ℕ)
      (can_save can_save_users : Bool) (edited : Option Text) (e : RegisterEntry) (msg : Text)
      → is_empty code ≡ false
      → is_empty action ≡ false
      → find_by_code r code now ≡ ok e
      → text_eq e.status (codes "Confirmed") ≡ false
      → text_eq e.status (codes "Denied") ≡ false
      → to_lower u action ≡ codes "accept"
      → users.is_locked ≡ false
      → content_of m.content ≡ some msg
      → (c : Confirmation) × (register_confirm u r users code action now can_save can_save_users
            edited
          ≡ some c)
        × (is_some c.answer ≡ is_some users.users)
        × (handle_message execute s t true c.users guilds m ≡ none)
  unfolding register_confirm
  confirmed_silences u r users code action now can_save can_save_users edited e msg has_code
        has_action found not_confirmed not_denied is_accept open_ content =
      let (users', made, locked) =
        set-some users e.discord_id e.character_name can_save_users open_ in
      let acted =
        act-accept u r users action now can_save can_save_users edited e not_confirmed not_denied
          is_accept in
      let (c, ended, answered, kept) = accept-some r e now can_save edited users' _ in
      (
        c,
        rw (has_code, has_action, found, acted, made) ended,
        answered,
        rw kept (handle_message-none users' msg locked content),
      )
