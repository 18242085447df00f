-- ===== src/Databases/Userdb.antt =====
-- userdb/userdb.go: the name in the game of each Discord user. `is_locked` is whether a call has
-- left the lock taken; a call that then waits for it gives `none`.
pub mod Blocked
use talkeqidea.Common.{
  ℕ, ◌≡◌, Bool, true, false, List, [], ◌∷◌, Option, none, some, Text, text_eq, is_empty, ◌==◌,
  if◌then◌else◌, TextMap, lookup, insert,
}
use talkeqidea.Golang.Strings.{trim_space}
use talkeqidea.Golang.Search.{split_on, cut_at}

pub record UserEntry : Type 0 where
  pub character_name : Text
  pub discord_id : Text

-- `users` is nil until a file is read: `New` makes a file where there is none, and does not read it.
-- `file` is what a save writes, when it can write.
pub record Users : Type 0 where
  pub users : Option (TextMap UserEntry)
  pub is_locked : Bool
  pub file : Option (TextMap UserEntry)

unfoldable pub name_part : Text → Option (Text × Text) → Text
name_part name none = name
name_part name (some (before, after)) = trim_space before

-- The parts of a line that was split at colons.
unfoldable pub read_parts : List Text → Option UserEntry
read_parts [] = none
read_parts (id ∷ []) = none
read_parts (id ∷ name ∷ []) =
    let character = trim_space name in
    some (record {
      discord_id = trim_space id;
      character_name = name_part character (cut_at b'#' character);
    })
read_parts (id ∷ name ∷ more ∷ rest) = none

unfoldable pub read_trimmed : Text → Option UserEntry
read_trimmed [] = none
read_trimmed (c ∷ cs) =
    let entry = read_parts (split_on b':' (c ∷ cs)) in if c == b'#' then none else entry

unfoldable pub add_line : TextMap UserEntry → Option UserEntry → TextMap UserEntry
add_line m none = m
add_line m (some e) = insert e.discord_id e m

unfoldable pub read_lines : TextMap UserEntry → List Text → TextMap UserEntry
read_lines m [] = m
read_lines m (line ∷ rest) = read_lines (add_line m (read_trimmed (trim_space line))) rest

-- A file in the text format; `none` is a file that cannot be read, which changes nothing.
unfoldable pub reloaded : Users → Option Text → Users × Bool
reloaded u none = (u, false)
reloaded u (some text) = (record u { users = some (read_lines [] (split_on b'\n' text)) }, true)

unfoldable pub reload : Users → Option Text → Option (Users × Bool)
reload u file = if u.is_locked then none else some (reloaded u file)

-- Nothing is found in a map that is nil.
unfoldable pub find : Text → Option (TextMap UserEntry) → Option UserEntry
find id none = none
find id (some m) = lookup id m

-- A new entry, and whether the call returns: writing to a map that is nil panics.
unfoldable pub assign : Users → UserEntry → Bool → Option (TextMap UserEntry) → Users × Bool
assign u e can_save none = (u, false)
assign u e can_save (some m) =
    let users = insert e.discord_id e m in
    (record u { users = some users; file = if can_save then some users else u.file }, true)

-- For a user that is known it is a copy that changes.
unfoldable pub set_found : Users → Text → Text → Bool → Option UserEntry → Users × Bool
set_found u id name can_save (some e) = (u, true)
set_found u id name can_save none =
    assign u (record { discord_id = id; character_name = name }) can_save u.users

-- The lock is taken, and never given back; with whether the call returns or panics.
unfoldable pub set : Users → Text → Text → Bool → Option (Users × Bool)
set u id name can_save =
    if u.is_locked
    then none
    else some (set_found (record u { is_locked = true }) id name can_save (find id u.users))

unfoldable pub name_of : Option UserEntry → Text
name_of none = []
name_of (some e) = e.character_name

unfoldable pub name : Users → Text → Option Text
name u id = if u.is_locked then none else some (name_of (find id u.users))
