-- ===== src/Telnet/Links.antt =====
-- convertLinks of telnet/telnet_msg.go. The patterns of package regexp are a parameter.
pub mod Ending
mod Tests
use talkeqidea.Common.{
  ℕ, zero, suc, ◌+◌, ◌-◌, ◌*◌, ◌^◌, ◌≡◌, Bool, true, false, not, ◌&&◌, List, [], ◌∷◌, ◌++◌, Option,
  none, some, Text, codes, is_empty, length, take, drop, leb, ltb, ◌==◌, if◌then◌else◌,
}
use talkeqidea.Golang.Strings.{trim_space}
use talkeqidea.Golang.Search.{decimal}
use talkeqidea.Config.Routes.{TelnetConf}

-- `FindAllStringSubmatchIndex` of one match: where it and its two groups begin and end.
pub record LinkMatch : Type 0 where
  pub start : ℕ
  pub stop : ℕ
  pub id_start : ℕ
  pub id_stop : ℕ
  pub name_start : ℕ
  pub name_stop : ℕ

-- The first match of each pattern: the one for 71 bytes, for 50, for 39, and the configured one.
pub record LinkPatterns : Type 0 where
  pub link71 : Text → Option LinkMatch
  pub link50 : Text → Option LinkMatch
  pub link39 : Text → Option LinkMatch
  pub custom : Option (Text → Option LinkMatch)

unfoldable pub or_else : {A : Type 0} → Option A → Option A → Option A
or_else none later = later
or_else (some a) later = some a

unfoldable pub custom_link : Option (Text → Option LinkMatch) → Text → Option LinkMatch
custom_link none s = none
custom_link (some find) s = find s

unfoldable pub first_link : LinkPatterns → Text → Option LinkMatch
first_link p s =
    or_else (p.link71 s) (or_else (p.link50 s) (or_else (p.link39 s) (custom_link p.custom s)))

abbrev pub slice : Text → ℕ → ℕ → Text
slice s first last = take (last - first) (drop first s)

unfoldable pub hex_digit : ℕ → Option ℕ
hex_digit c =
    if leb b'0' c && leb c b'9'
    then some (c - b'0')
    else if leb b'A' c && leb c b'F'
    then some (c - b'A' + 10)
    else if leb b'a' c && leb c b'f'
    then some (c - b'a' + 10)
    else none

unfoldable pub hex_digits : ℕ → Text → Option ℕ
hex_digits n [] = some n
hex_digits n (c ∷ cs) = elim (hex_digit c) [ none ↦ none | some d ↦ hex_digits (n * 16 + d) cs ]

-- `strconv.ParseInt(s, 16, 64)` of digits, with its error ignored: 0, or the largest number.
unfoldable pub item_id : Option ℕ → ℕ
item_id none = 0
item_id (some n) = if leb n (2 ^ 63 - 1) then n else 2 ^ 63 - 1

-- A link as Discord shows it.
unfoldable pub shown_link : TelnetConf → ℕ → Text → Text
shown_link c id name =
    let target = c.item_url ++ decimal id in
    if c.is_legacy_links
    then (if ltb 0 id && not (is_empty c.item_url)
        then (if c.is_links_embedded
            then target ++ codes " (" ++ name ++ codes ")"
            else codes "<" ++ target ++ codes "> (" ++ name ++ codes ")")
        else codes "*" ++ name ++ codes "* ")
    else if c.is_links_embedded
    then codes "[" ++ name ++ codes "](" ++ target ++ codes ")"
    else codes "[" ++ name ++ codes "](<" ++ target ++ codes ">)"

-- One link replaced.
unfoldable pub convert_one : TelnetConf → Text → LinkMatch → Text
convert_one c s l =
    let id = item_id (hex_digits 0 (slice s l.id_start l.id_stop)) in
    let name = slice s l.name_start l.name_stop in
    trim_space (take l.start s ++ shown_link c id name ++ drop l.stop s)

-- The recursion, with fuel.
unfoldable pub convert_links : LinkPatterns → TelnetConf → ℕ → Text → Option Text
convert_links p c zero s = none
convert_links p c (suc fuel) s = elim (first_link p s) [
  | none ↦ some s
  | some l ↦ convert_links p c fuel (convert_one c s l)
]
