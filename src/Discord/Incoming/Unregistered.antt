-- ===== src/Discord/Incoming/Unregistered.antt =====
-- Who is not known in the game: handleMessage of discord/discord_msg.go.
use talkeqidea.Common.{
  ◌≡◌, true, false, ◌&&◌, List, [], ◌∷◌, append-nil, Option, none, some, Text, text_eq, All, refl,
  ap, ◌∙◌,
}
use talkeqidea.Golang.Search.{replace_byte}
use talkeqidea.Config.Routes.{DiscordRoute}
use talkeqidea.Databases.Userdb.{Users, name}
use talkeqidea.Databases.Guilddb.{Guilds}
use talkeqidea.Matching.{and_then}
use talkeqidea.Discord.{Discord, DiscordServer, sanitize, only_ascii, ign_name}
use talkeqidea.Discord.Incoming.{
  Posted, content_of, listens, borrow_name, commands, routed, handled, look_up, handle_message,
}

-- No route that listens to the channel of a message takes it from anyone.
abbrev pub IsClosed : Posted → List DiscordRoute → Type 0
IsClosed m = All (λ r. (listens m.channel_id r && r.is_anyone_allowed) ≡ false)

borrow_name_closed :
    (s : DiscordServer) (m : Posted) (ign : Text) (rs : List DiscordRoute)
    → IsClosed m rs
    → borrow_name s m ign rs ≡ ign
unfolding borrow_name
borrow_name_closed s m ign [] closed = refl
borrow_name_closed s m ign (r ∷ rest) (h, closed) = rw h (borrow_name_closed s m ign rest closed)

module _ (execute : Text → Text → Text → Text → Option Text) (s : DiscordServer) (t : Discord)
    (guilds : Guilds) (m : Posted) where
  routed_closed :
      (msg : Text) → IsClosed m t.config.routes → routed execute s t guilds m [] msg ≡ ([], true)
  unfolding routed
  routed_closed msg closed = rw (borrow_name_closed s m [] t.config.routes closed)

  handled_closed :
      (msg : Text)
      → ign_name s t m.guild_id m.author_id ≡ []
      → IsClosed m t.config.routes
      → text_eq m.author_id t.id ≡ false
      → handled execute s t guilds m msg [] ≡ (commands execute m [] msg, true)
  unfolding handled and_then sanitize only_ascii replace_byte
  handled_closed msg nameless closed other =
      rw (other, nameless, routed_closed msg closed, append-nil (commands execute m [] msg))

  look_up_known :
      (users : Users) (msg found : Text)
      → name users m.author_id ≡ some found
      → look_up execute s t users guilds m (some msg)
        ≡ some (handled execute s t guilds m msg found)
  unfolding look_up
  look_up_known users msg found h =
      ap (λ o. elim o [ none ↦ none | some found ↦ some (handled execute s t guilds m msg found) ])
        h

  -- Of a message that can be used, whose author is not the bot, has no name in the data base of users
  -- and no role that names one, in a channel where no route that is enabled takes messages from
  -- anyone, the subscribers are handed the command, if it is one, and nothing else.
  pub unregistered_unheard :
      (users : Users) (msg : Text)
      → content_of m.content ≡ some msg
      → name users m.author_id ≡ some []
      → ign_name s t m.guild_id m.author_id ≡ []
      → IsClosed m t.config.routes
      → text_eq m.author_id t.id ≡ false
      → handle_message execute s t true users guilds m ≡ some (commands execute m [] msg, true)
  unfolding handle_message
  unregistered_unheard users msg content unnamed nameless closed other =
      ap (look_up execute s t users guilds m) content
      ∙ look_up_known users msg [] unnamed
      ∙ ap some (handled_closed msg nameless closed other)
