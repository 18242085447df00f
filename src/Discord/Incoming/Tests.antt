-- ===== src/Discord/Incoming/Tests.antt =====
-- A message in a channel with a route that is not for anyone.
use talkeqidea.Common.{◌≡◌, refl, true, false, [], none, some, codes, text_eq, lookup, Text, Option}
use talkeqidea.Golang.Search.{replace_byte}
use talkeqidea.Config.Whole.Tests.{bot}
use talkeqidea.Databases.Userdb.{Users, find, name, name_of}
use talkeqidea.Discord.{Discord, DiscordServer, sanitize, only_ascii, ign_name, tag_in}
use talkeqidea.Discord.Incoming.{Posted, content_of, usable, listens, commands, handle_message}
use talkeqidea.Discord.Incoming.Unregistered.{unregistered_unheard}

abbrev pub discord : Discord
discord = record {
  is_connected = true;
  config = bot;
  id = codes "0";
  last_message_id = codes "m";
  last_channel_id = codes "7";
}

-- A server where nobody is a member.
abbrev pub empty_server : DiscordServer
empty_server = record { guild_member = λ server user. none; guild_roles = λ server. none }

abbrev pub printed : Text → Text → Text → Text → Option Text
printed template channel name message = some message

abbrev pub no_users : Users
no_users = record { users = some []; is_locked = false; file = none }

abbrev pub hello : Posted
hello = record {
  guild_id = [];
  channel_id = codes "7";
  author_id = codes "1";
  author_name = codes "ann";
  content = some (codes "hi");
}

pub hello_usable : content_of hello.content ≡ some (codes "hi")
unfolding content_of usable sanitize only_ascii replace_byte
hello_usable = refl

unregistered_unheard_example :
    handle_message printed empty_server discord true no_users [] hello
    ≡ some (commands printed hello [] (codes "hi"), true)
unfolding name name_of find lookup ign_name tag_in listens text_eq
unregistered_unheard_example =
    unregistered_unheard printed empty_server discord [] hello no_users (codes "hi") hello_usable
      refl refl (refl, tt) refl
