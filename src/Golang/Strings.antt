-- ===== src/Golang/Strings.antt =====
-- `strings.TrimSpace`, `strings.ToLower` and the rune classes of `unicode`.
pub mod Trim
pub mod Counting
use talkeqidea.Common.{
  ℕ, ◌+◌, ◌-◌, ◌≤◌, ◌<◌, ◌≡◌, Bool, true, false, ◌||◌, List, [], ◌∷◌, ◌++◌, map, Text, ltb, leb,
  ◌==◌, if◌then◌else◌,
}
use talkeqidea.Golang.Utf8.{is_between, segments_from, segments, runes, encode, encode_all}

-- The tables of package `unicode` that the program consults. They are data of Go's library.
pub record Unicode : Type 0 where
  pub is_print : ℕ → Bool
  pub to_lower : ℕ → ℕ
  pub to_upper : ℕ → ℕ

-- What `unicode.ToLower` does with ASCII.
abbrev pub LowersAscii : Unicode → Type 0
LowersAscii u = (r : ℕ) → r < 128 → u.to_lower r ≡ (if is_between b'A' b'Z' r then r + 32 else r)

-- What `unicode.ToUpper` does with ASCII.
abbrev pub RaisesAscii : Unicode → Type 0
RaisesAscii u = (r : ℕ) → r < 128 → u.to_upper r ≡ (if is_between b'a' b'z' r then r - 32 else r)

-- `unicode.IsSpace`.
unfoldable pub is_space : ℕ → Bool
is_space r =
    is_between 9 13 r
    || r == 0x20
    || r == 0x85
    || r == 0xA0
    || r == 0x1680
    || is_between 0x2000 0x200A r
    || r == 0x2028
    || r == 0x2029
    || r == 0x202F
    || r == 0x205F
    || r == 0x3000

-- `unicode.IsControl`.
unfoldable pub is_control : ℕ → Bool
is_control r = ltb r 0x20 || is_between 0x7F 0x9F r

abbrev pub Segments : Type 0
Segments = List (ℕ × Text)

unfoldable pub drop_spaces : Segments → Segments
drop_spaces [] = []
drop_spaces ((r, s) ∷ rest) =
    let after = drop_spaces rest in if is_space r then after else (r, s) ∷ rest

-- A space that nothing follows is dropped.
unfoldable pub attach : ℕ → Text → Segments → Segments
attach r s [] = if is_space r then [] else (r, s) ∷ []
attach r s (p ∷ ps) = (r, s) ∷ p ∷ ps

unfoldable pub drop_last_spaces : Segments → Segments
drop_last_spaces [] = []
drop_last_spaces ((r, s) ∷ rest) = attach r s (drop_last_spaces rest)

unfoldable pub spell : Segments → Text
spell [] = []
spell ((r, s) ∷ rest) = s ++ spell rest

unfoldable pub trim_space : Text → Text
unfolding spell drop_spaces drop_last_spaces attach is_space segments
trim_space s = spell (drop_last_spaces (drop_spaces (segments s)))

-- `strings.ToLower` maps every rune; an invalid byte becomes an encoded `rune_error`.
unfoldable pub to_lower : Unicode → Text → Text
unfolding encode_all runes
to_lower u s = encode_all (map u.to_lower (runes s))

unfoldable pub to_upper : Unicode → Text → Text
unfolding encode_all runes
to_upper u s = encode_all (map u.to_upper (runes s))
