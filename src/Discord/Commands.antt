-- ===== src/Discord/Commands.antt =====
-- discord/discord_cmd.go and discord/discord_cmd_who.go: the slash commands.
use talkeqidea.Common.{List, [], ◌∷◌, Text, codes, text_eq, if◌then◌else◌}
use talkeqidea.Golang.Strings.{Unicode, to_lower}
use talkeqidea.Databases.Characterdb.{Characters, characters_online}

-- The first option of the command, or everyone.
unfoldable pub who_filter : List Text → Text
who_filter [] = []
who_filter (arg ∷ rest) = if text_eq arg (codes "all") then [] else arg

unfoldable pub who : Characters → List Text → Text
who online options = characters_online online (who_filter options)

-- What is answered: nothing for a command that is not known.
unfoldable pub handle_command : Unicode → Characters → Text → List Text → Text
handle_command u online cmd options =
    if text_eq (to_lower u cmd) (codes "who") then who online options else []
