-- ===== src/Databases/Characterdb.antt =====
-- characterdb/characterdb.go: the characters online, and the count that is shown.
use talkeqidea.Common.{
  ℕ, ◌+◌, Bool, false, ◌||◌, [], ◌∷◌, ◌++◌, Text, codes, length, is_empty, leb, ltb, ◌==◌,
  if◌then◌else◌, ℤ, pos, TextMap,
}
use talkeqidea.Golang.Search.{contains, decimal}

pub record Character : Type 0 where
  pub is_online : Bool
  pub identity : Text
  pub state : Text
  pub level : ℤ
  pub class : Text
  pub name : Text
  pub race : Text
  pub zone : Text
  pub acct_id : ℤ
  pub acct_name : Text
  pub ls_id : ℤ
  pub status : ℤ

pub record Characters : Type 0 where
  pub characters : TextMap Character
  pub online_count : ℤ

unfoldable pub set_characters : Characters → TextMap Character → Characters
set_characters c req = record { characters = req; online_count = pos (length req) }

unfoldable pub characters_online_count : Characters → ℤ
characters_online_count c = c.online_count

unfoldable pub set_characters_online_count : Characters → ℤ → Characters
set_characters_online_count c value = record c { online_count = value }

-- The local variables of the loop of `CharactersOnline`.
pub record Listing : Type 0 where
  pub content : Text
  pub total_count : ℕ
  pub hidden_count : ℕ
  pub is_truncated : Bool

unfoldable pub is_hidden : Character → Bool
is_hidden c = contains (codes "ANON") c.state || contains (codes "RolePlay") c.state

unfoldable pub matches_filter : Text → Character → Bool
matches_filter filter c = is_empty filter || contains filter c.name || contains filter c.zone

unfoldable pub list_one : Text → Listing → Character → Listing
list_one filter l0 c =
    let l = record l0 { is_truncated = l0.is_truncated || leb 20 l0.total_count } in
    if is_hidden c
    then record l { hidden_count = l.hidden_count + 1 }
    else if matches_filter filter c
    then record l { content = l.content ++ c.name ++ codes "\n"; total_count = l.total_count + 1 }
    else l

unfoldable pub list_all : Text → Listing → TextMap Character → Listing
list_all filter l [] = l
list_all filter l ((key, c) ∷ rest) = list_all filter (list_one filter l c) rest

unfoldable pub listing_text : Text → Listing → Text
listing_text filter l =
    let hidden = if ltb 0 l.hidden_count then codes "(%d hidden) " else [] in
    let truncated = if l.is_truncated then codes "(truncated) " else [] in
    if l.total_count == 0
    then codes "There are 0 players " ++ hidden ++ codes "online."
    else if is_empty filter
    then codes "There are "
      ++ decimal l.total_count
      ++ codes " players "
      ++ hidden
      ++ codes "online"
      ++ truncated
      ++ codes ":\n"
      ++ l.content
    else codes "There are "
      ++ decimal l.total_count
      ++ codes " players "
      ++ hidden
      ++ truncated
      ++ codes "who match '"
      ++ filter
      ++ codes "':\n"
      ++ l.content

unfoldable pub characters_online : Characters → Text → Text
characters_online c filter = listing_text filter (
    list_all filter
      (record { content = []; total_count = 0; hidden_count = 0; is_truncated = false })
      c.characters)
