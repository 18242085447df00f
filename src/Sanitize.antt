-- ===== src/Sanitize.antt =====
-- sanitize/sanitize.go.
pub mod Safe
pub mod Boundary
pub mod Names
mod Tests
use Prim.Native.Nat.{bit_and}
use talkeqidea.Common.{
  ℕ, zero, suc, ◌+◌, ◌-◌, ◌≤◌, ◌<◌, ◌≡◌, Bool, true, false, not, ◌&&◌, ◌||◌, List, [], ◌∷◌, ◌++◌,
  map, Text, ltb, leb, ◌==◌, if◌then◌else◌, any, take, length, get_or, keep,
}
use talkeqidea.Golang.Utf8.{is_between, runes, encode_all, rune_error}
use talkeqidea.Golang.Strings.{Unicode, is_control, trim_space, to_lower}

abbrev pub max_name_len : ℕ
max_name_len = 64

abbrev pub max_message_len : ℕ
max_message_len = 1000

-- `b & 0xC0 != 0x80`.
unfoldable pub is_rune_start : ℕ → Bool
is_rune_start b = not (bit_and b 0xC0 == 0x80)

-- The loop of `truncate`: the last rune start at or before `max`, or 0.
unfoldable pub rune_start_before : Text → ℕ → ℕ
rune_start_before s zero = zero
rune_start_before s (suc max) = elim (is_rune_start (get_or s (suc max) 0)) [
  | true ↦ suc max
  | false ↦ rune_start_before s max
]

unfoldable pub truncate : Text → ℕ → Text
unfolding rune_start_before is_rune_start
truncate s max = if max == 0 || leb (length s) max then s else take (rune_start_before s max) s

-- The loop of `collapseSpaces`; the first argument is `wasSpace`.
unfoldable pub collapse : Bool → List ℕ → List ℕ
collapse was_space [] = []
collapse was_space (r ∷ rs) =
    let rest = collapse (r == b' ') rs in if r == b' ' && was_space then rest else r ∷ rest

-- `strings.Contains(s, "  ")`.
unfoldable pub has_double_space : Text → Bool
has_double_space [] = false
has_double_space (c ∷ []) = false
has_double_space (c ∷ d ∷ s) = (c == b' ' && d == b' ') || has_double_space (d ∷ s)

unfoldable pub collapse_spaces : Text → Text
unfolding has_double_space collapse runes encode_all
collapse_spaces s = if has_double_space s then encode_all (collapse false (runes s)) else s

-- What one round of the loop of `TelnetLine` writes.
unfoldable pub telnet_rune : Unicode → ℕ → List ℕ
unfolding is_control
telnet_rune u r =
    if r == 10 || r == 13
    then b' ' ∷ []
    else if r == 0x12
    then []
    else if r == rune_error
    then []
    else if is_control r
    then []
    else if not (u.is_print r) && not (r == b' ')
    then []
    else r ∷ []

unfoldable pub telnet_runes : Unicode → List ℕ → List ℕ
telnet_runes u [] = []
telnet_runes u (r ∷ rs) = telnet_rune u r ++ telnet_runes u rs

unfoldable pub telnet_line : Unicode → Text → ℕ → Text
unfolding telnet_runes telnet_rune runes encode_all collapse_spaces trim_space truncate
telnet_line u s max =
    truncate (trim_space (collapse_spaces (encode_all (telnet_runes u (runes s))))) max

unfoldable pub is_name_rune : ℕ → Bool
is_name_rune r =
    is_between b'a' b'z' r
    || is_between b'A' b'Z' r
    || is_between b'0' b'9' r
    || r == b'_'
    || r == b'-'
    || r == b'.'
    || r == b'\''

unfoldable pub name : Text → Text
unfolding is_name_rune runes encode_all truncate
name s = truncate (encode_all (keep is_name_rune (runes s))) max_name_len

unfoldable pub message : Unicode → Text → Text
unfolding telnet_line
message u s = telnet_line u s max_message_len

-- What one round of the loop of `ServerKey` writes.
unfoldable pub key_rune : ℕ → List ℕ
key_rune r =
    if is_between b'a' b'z' r || is_between b'0' b'9' r || r == b'-' || r == b'_'
    then r ∷ []
    else if r == b' '
    then b'-' ∷ []
    else []

unfoldable pub key_runes : List ℕ → List ℕ
key_runes [] = []
key_runes (r ∷ rs) = key_rune r ++ key_runes rs

unfoldable pub server_key : Unicode → Text → Text
unfolding key_runes key_rune runes encode_all to_lower trim_space truncate
server_key u s = truncate (encode_all (key_runes (runes (to_lower u (trim_space s))))) max_name_len

-- `!strings.ContainsAny(s, "\r\n\x00")` and the bound on the length.
unfoldable pub is_safe_telnet_line : Text → Bool
is_safe_telnet_line s =
    if any (λ c. c == 13 || c == 10 || c == 0) s then false else leb (length s) 8192
