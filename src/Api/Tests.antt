-- ===== src/Api/Tests.antt =====
-- A player who confirms.
use talkeqidea.Common.{◌≡◌, refl, true, [], none, some, codes, text_eq}
use talkeqidea.Golang.Tables.{ascii_tables}
use talkeqidea.Golang.Strings.{to_lower}
use talkeqidea.Golang.Search.{is_some}
use talkeqidea.Databases.Registerdb.{find_by_code, find_code}
use talkeqidea.Databases.Registerdb.Tests.{waiting, asked}
use talkeqidea.Discord.Incoming.{handle_message}
use talkeqidea.Discord.Incoming.Tests.{
  discord, empty_server, printed, no_users, hello, hello_usable,
}
use talkeqidea.Api.{Confirmation, register_confirm}
use talkeqidea.Api.Silenced.{confirmed_silences}

confirmed_silences_example :
    (c : Confirmation) × (register_confirm ascii_tables asked no_users
        (codes "1234")
        (codes "accept")
        20
        true
        true
        none
      ≡ some c)
    × (is_some c.answer ≡ is_some no_users.users)
    × (handle_message printed empty_server discord true c.users [] hello ≡ none)
unfolding find_by_code find_code text_eq to_lower
confirmed_silences_example =
    confirmed_silences printed empty_server discord [] hello ascii_tables asked no_users
      (codes "1234") (codes "accept") 20 true true none waiting (codes "hi") refl refl refl refl
      refl refl refl hello_usable
