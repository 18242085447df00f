-- ===== src/Databases/Guilddb.antt =====
-- guilddb/guilddb.go: the Discord channel of each guild, from a text file.
use talkeqidea.Common.{
  Bool, true, false, List, [], ◌∷◌, Option, none, some, Text, is_empty, length, text_eq, ltb, ◌==◌,
  if◌then◌else◌, ℤ, pos, negsuc,
}
use talkeqidea.Golang.Strings.{trim_space}
use talkeqidea.Golang.Search.{split_on, cut_at, atoi}

-- `map[int]string`.
abbrev pub Guilds : Type 0
Guilds = List (ℤ × Text)

abbrev pub int_eq : ℤ → ℤ → Bool
int_eq (pos m) (pos n) = m == n
int_eq (negsuc m) (negsuc n) = m == n
int_eq (pos m) (negsuc n) = false
int_eq (negsuc m) (pos n) = false

unfoldable pub set : ℤ → Text → Guilds → Guilds
set id name [] = (id, name) ∷ []
set id name ((at, old) ∷ rest) =
    let kept = (at, old) ∷ set id name rest in if int_eq at id then (at, name) ∷ rest else kept

-- The empty text where the guild has no channel.
unfoldable pub channel_id : Guilds → ℤ → Text
channel_id [] id = []
channel_id ((at, name) ∷ rest) id = if int_eq at id then name else channel_id rest id

-- The first guild of the map with a channel, or 0.
unfoldable pub guild_id : Guilds → Text → ℤ
guild_id [] channel = pos 0
guild_id ((at, name) ∷ rest) channel = if text_eq channel name then at else guild_id rest channel

-- What a comment is cut from: one that begins the name is kept.
unfoldable pub uncommented : Text → Option (Text × Text) → Text
uncommented name none = name
uncommented name (some (before, after)) = if is_empty before then name else before

unfoldable pub read_entry : Text → Option ℤ → Option (ℤ × Text)
read_entry name none = none
read_entry name (some id) =
    if ltb (length name) 3
    then none
    else some (id, trim_space (uncommented name (cut_at b'#' name)))

unfoldable pub read_parts : Option (Text × Text) → Option (ℤ × Text)
read_parts none = none
read_parts (some (sid, name)) = if is_empty sid then none else read_entry name (atoi sid)

-- A line, without the spaces around it.
unfoldable pub read_trimmed : Text → Option (ℤ × Text)
read_trimmed [] = none
read_trimmed (c ∷ cs) =
    let parts = read_parts (cut_at b':' (c ∷ cs)) in if c == b'#' then none else parts

unfoldable pub read_line : Text → Option (ℤ × Text)
read_line line = read_trimmed (trim_space line)

unfoldable pub add_line : Guilds → Option (ℤ × Text) → Guilds
add_line m none = m
add_line m (some (id, name)) = set id name m

unfoldable pub read_lines : Guilds → List Text → Guilds
read_lines m [] = m
read_lines m (line ∷ rest) = read_lines (add_line m (read_line line)) rest

-- A file that cannot be read leaves the map as it was, with an error.
unfoldable pub reload : Guilds → Option Text → Guilds × Bool
reload m none = (m, false)
reload m (some text) = (read_lines [] (split_on b'\n' text), true)
