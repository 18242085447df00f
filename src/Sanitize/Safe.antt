-- ===== src/Sanitize/Safe.antt =====
-- The text made from what a peer sends, as a console line.
use talkeqidea.Common.{
  ℕ, zero, suc, ◌≤◌, ◌≡◌, ◌≢◌, refl, Bool, true, false, ◌||◌, List, [], ◌∷◌, arith, Text, All,
  All-append, All-take, length, ◌==◌, any, length-take-le,
}
use talkeqidea.Golang.Utf8.{runes, encode_all}
use talkeqidea.Golang.Utf8.Safe.{
  IsInline, encode_all-IsInline, segments_bytes-IsInline, runes-IsInline,
}
use talkeqidea.Golang.Strings.{Unicode, is_control, trim_space}
use talkeqidea.Golang.Strings.Trim.{trim_space-All}
use talkeqidea.Sanitize.{
  rune_start_before, truncate, collapse, collapse_spaces, telnet_rune, telnet_runes, telnet_line,
  message, is_safe_telnet_line, max_message_len,
}

telnet_rune-IsInline : (u : Unicode) (r : ℕ) → All IsInline (telnet_rune u r)
unfolding telnet_rune is_control
telnet_rune-IsInline u r = ground arith

telnet_runes-IsInline : (u : Unicode) (rs : List ℕ) → All IsInline (telnet_runes u rs)
unfolding telnet_runes
telnet_runes-IsInline u [] = tt
telnet_runes-IsInline u (r ∷ rs) =
    All-append IsInline (telnet_rune u r) (telnet_runes u rs) (telnet_rune-IsInline u r)
      (telnet_runes-IsInline u rs)

collapse-All :
    (P : ℕ → Type 0) (was_space : Bool) (rs : List ℕ) → All P rs → All P (collapse was_space rs)
unfolding collapse
collapse-All P was_space [] h = tt
collapse-All P was_space (r ∷ rs) (h, hs) = ground (arith, collapse-All P (r == b' ') rs hs)

collapse_spaces-IsInline : (s : Text) → All IsInline s → All IsInline (collapse_spaces s)
unfolding collapse_spaces
collapse_spaces-IsInline s h = ground (
  arith,
  encode_all-IsInline (collapse false (runes s))
      (collapse-All IsInline false (runes s) (runes-IsInline s h)),
)

trim_space-IsInline : (s : Text) → All IsInline s → All IsInline (trim_space s)
trim_space-IsInline s h = trim_space-All IsInline s (segments_bytes-IsInline s h)

pub truncate-All : (P : ℕ → Type 0) (s : Text) (max : ℕ) → All P s → All P (truncate s max)
unfolding truncate
truncate-All P s max h = ground (arith, All-take P (rune_start_before s max) s h)

pub rune_start_before-le : (s : Text) (max : ℕ) → rune_start_before s max ≤ max
unfolding rune_start_before
rune_start_before-le s zero = omega arith
rune_start_before-le s (suc max) = ground (arith, rune_start_before-le s max)

pub length-truncate-le : (s : Text) (max : ℕ) → max ≢ 0 → length (truncate s max) ≤ max
unfolding truncate
length-truncate-le s max h =
    ground (arith, rune_start_before-le s max, length-take-le (rune_start_before s max) s)

telnet_line-IsInline : (u : Unicode) (s : Text) (max : ℕ) → All IsInline (telnet_line u s max)
unfolding telnet_line
telnet_line-IsInline u s max = truncate-All IsInline _ max (
    trim_space-IsInline _
      (collapse_spaces-IsInline _ (encode_all-IsInline _ (telnet_runes-IsInline u (runes s)))))

any-IsInline : (s : Text) → All IsInline s → any (λ c. c == 13 || c == 10 || c == 0) s ≡ false
any-IsInline [] h = refl
any-IsInline (c ∷ s) (h, hs) = ground (arith, any-IsInline s hs)

safe_of-IsInline : (s : Text) → All IsInline s → length s ≤ 8192 → is_safe_telnet_line s ≡ true
unfolding is_safe_telnet_line
safe_of-IsInline s h k = ground (arith, any-IsInline s h)

pub length-telnet_line-le :
    (u : Unicode) (s : Text) (max : ℕ) → max ≢ 0 → length (telnet_line u s max) ≤ max
unfolding telnet_line
length-telnet_line-le u s max h =
    length-truncate-le (trim_space (collapse_spaces (encode_all (telnet_runes u (runes s))))) max h

-- A line cut to between 1 and 8192 bytes passes the last check before the console, whatever the
-- peer sent and whatever characters count as printable.
pub telnet_line_safe :
    (u : Unicode) (s : Text) (max : ℕ)
    → max ≢ 0
    → max ≤ 8192
    → is_safe_telnet_line (telnet_line u s max) ≡ true
telnet_line_safe u s max h k =
    safe_of-IsInline (telnet_line u s max) (telnet_line-IsInline u s max)
      (omega (arith, length-telnet_line-le u s max h))

-- A message is at most 1000 bytes and passes the last check, whatever the peer sent.
pub message_safe :
    (u : Unicode) (s : Text)
    → (length (message u s) ≤ max_message_len) × (is_safe_telnet_line (message u s) ≡ true)
unfolding message
message_safe u s = (
  length-telnet_line-le u s 1000 (omega arith),
  telnet_line_safe u s 1000 (omega arith) (omega arith),
)
