-- ===== src/Telnet/Online.antt =====
-- telnet/telnet_online.go: the list of players that the console prints.
use talkeqidea.Common.{
  ℕ, ◌+◌, Bool, true, false, not, ◌&&◌, List, [], ◌∷◌, Option, none, some, Text, codes, length, ltb,
  get_or, if◌then◌else◌, ℤ, pos, TextMap, insert,
}
use talkeqidea.Golang.Search.{contains, replace_byte, atoi}
use talkeqidea.Guard.Core.{second}
use talkeqidea.Databases.Characterdb.{
  Character, Characters, set_characters, set_characters_online_count,
}

-- The fields of `Telnet` that a list of players is gathered in.
pub record PlayerDump : Type 0 where
  pub is_player_dump : Bool
  pub last_player_dump : ℕ
  pub characters : TextMap Character

-- The two patterns: every match of an entry with its groups, and the group of the first match of
-- the count. The pattern of an entry has eleven groups, so that a match of it has twelve texts.
pub record PlayerPatterns : Type 0 where
  pub player_entry : Text → List (List Text)
  pub players_online : Text → Option Text

-- A number that cannot be read is 0.
unfoldable pub number_or_zero : Option ℤ → ℤ
number_or_zero none = pos 0
number_or_zero (some n) = n

unfoldable pub character_of : List Text → Character
character_of m = record {
  is_online = true;
  identity = get_or m 1 [];
  state = get_or m 2 [];
  level = number_or_zero (atoi (get_or m 3 []));
  class = get_or m 4 [];
  name = get_or m 5 [];
  race = get_or m 6 [];
  zone = get_or m 7 [];
  acct_id = number_or_zero (atoi (get_or m 8 []));
  acct_name = get_or m 9 [];
  ls_id = number_or_zero (atoi (get_or m 10 []));
  status = number_or_zero (atoi (get_or m 11 []));
}

unfoldable pub add_entries : TextMap Character → List (List Text) → TextMap Character
add_entries cs [] = cs
add_entries cs (m ∷ rest) =
    add_entries (if ltb (length m) 6 then cs else insert (get_or m 5 []) (character_of m) cs) rest

-- The end of a list: it is what is online.
unfoldable pub close_dump : PlayerDump → Characters → (PlayerDump × Characters) × Bool
close_dump d db = ((record d { is_player_dump = false }, set_characters db d.characters), false)

unfoldable pub add_matches :
    PlayerDump → Characters → List (List Text) → (PlayerDump × Characters) × Bool
add_matches d db [] = ((d, db), false)
add_matches d db (m ∷ rest) =
    ((record d { characters = add_entries d.characters (m ∷ rest) }, db), true)

-- Whether the line was one of a list.
unfoldable pub parse_player_entries :
    PlayerPatterns → PlayerDump → Characters → ℕ → Text → (PlayerDump × Characters) × Bool
parse_player_entries p d db now msg =
    if d.is_player_dump && ltb d.last_player_dump now
    then close_dump d db
    else if not d.is_player_dump && contains (codes "Players on server:") msg
    then (
      (record { is_player_dump = true; last_player_dump = now + second; characters = [] }, db),
      true,
    )
    else if not d.is_player_dump
    then ((d, db), false)
    else if contains (codes "players online") msg
    then close_dump d db
    else add_matches d db (p.player_entry (replace_byte 13 [] msg))

unfoldable pub count_online : Characters → Option ℤ → Characters × Bool
count_online db none = (db, false)
count_online db (some n) = (set_characters_online_count db n, true)

unfoldable pub count_matched : Characters → Option Text → Characters × Bool
count_matched db none = (db, false)
count_matched db (some s) = count_online db (atoi s)

unfoldable pub parse_players_online : PlayerPatterns → Characters → Text → Characters × Bool
parse_players_online p db msg = count_matched db (p.players_online msg)
