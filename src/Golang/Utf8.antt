-- ===== src/Golang/Utf8.antt =====
-- UTF-8 as the language decodes it in `range` over a string and encodes it in `WriteRune`.
pub mod Safe
pub mod RoundTrip
use talkeqidea.Common.{
  ℕ, zero, suc, ◌+◌, ◌-◌, ◌*◌, ◌/◌, ◌%◌, ◌≤◌, ◌<◌, ◌≡◌, refl, Bool, true, false, ◌&&◌, ◌||◌, List,
  [], ◌∷◌, ◌++◌, map, arith, Text, ltb, leb, ◌==◌, if◌then◌else◌, take,
}

-- `utf8.RuneError`, what an invalid byte decodes to.
abbrev pub rune_error : ℕ
rune_error = 0xFFFD

abbrev pub is_between : ℕ → ℕ → ℕ → Bool
is_between lo hi c = leb lo c && leb c hi

-- A continuation byte, 10xxxxxx.
abbrev pub is_continuation : ℕ → Bool
is_continuation c = is_between 0x80 0xBF c

-- The bytes that may follow the lead bytes of three and of four.
abbrev pub second_of_three : ℕ → ℕ → Bool
second_of_three b c =
    if b == 0xE0
    then is_between 0xA0 0xBF c
    else if b == 0xED
    then is_between 0x80 0x9F c
    else is_continuation c

abbrev pub second_of_four : ℕ → ℕ → Bool
second_of_four b c =
    if b == 0xF0
    then is_between 0x90 0xBF c
    else if b == 0xF4
    then is_between 0x80 0x8F c
    else is_continuation c

-- A decoded rune and its width in bytes; an invalid byte is one `rune_error`.
unfoldable pub decode_two : ℕ → Text → ℕ × ℕ
decode_two b (c ∷ _) =
    if is_continuation c then ((b - 0xC0) * 64 + (c - 0x80), 2) else (rune_error, 1)
decode_two b [] = (rune_error, 1)

unfoldable pub decode_three : ℕ → Text → ℕ × ℕ
decode_three b (c ∷ d ∷ _) =
    if second_of_three b c && is_continuation d
    then ((b - 0xE0) * 4096 + (c - 0x80) * 64 + (d - 0x80), 3)
    else (rune_error, 1)
decode_three b (c ∷ []) = (rune_error, 1)
decode_three b [] = (rune_error, 1)

unfoldable pub decode_four : ℕ → Text → ℕ × ℕ
decode_four b (c ∷ d ∷ e ∷ _) =
    if second_of_four b c && is_continuation d && is_continuation e
    then ((b - 0xF0) * 262144 + (c - 0x80) * 4096 + (d - 0x80) * 64 + (e - 0x80), 4)
    else (rune_error, 1)
decode_four b (c ∷ d ∷ []) = (rune_error, 1)
decode_four b (c ∷ []) = (rune_error, 1)
decode_four b [] = (rune_error, 1)

unfoldable pub decode : ℕ → Text → ℕ × ℕ
decode b s =
    if ltb b 0x80
    then (b, 1)
    else if is_between 0xC2 0xDF b
    then decode_two b s
    else if is_between 0xE0 0xEF b
    then decode_three b s
    else if is_between 0xF0 0xF4 b
    then decode_four b s
    else (rune_error, 1)

-- The runes of a text, each with the bytes that it stands for. The first argument counts bytes of
-- the last rune that are still to be passed over.
unfoldable pub segments_from : ℕ → Text → List (ℕ × Text)
segments_from k [] = []
segments_from (suc k) (b ∷ s) = segments_from k s
segments_from zero (b ∷ s) =
    let (r, w) = decode b s in (r, take w (b ∷ s)) ∷ segments_from (w - 1) s

unfoldable pub segments : Text → List (ℕ × Text)
unfolding segments_from decode decode_two decode_three decode_four
segments s = segments_from 0 s

-- What `for _, r := range s` visits.
unfoldable pub runes : Text → List ℕ
unfolding segments
runes s = map (λ p. p.0) (segments s)

abbrev pub is_surrogate : ℕ → Bool
is_surrogate r = is_between 0xD800 0xDFFF r

-- `WriteRune`: a surrogate or a number past the last code point is written as `rune_error`.
unfoldable pub encode : ℕ → Text
encode r =
    if ltb r 0x80
    then r ∷ []
    else if ltb r 0x800
    then (0xC0 + r / 64) ∷ (0x80 + r % 64) ∷ []
    else if is_surrogate r || ltb 0x10FFFF r
    then 0xEF ∷ 0xBF ∷ 0xBD ∷ []
    else if ltb r 0x10000
    then (0xE0 + r / 4096) ∷ (0x80 + r / 64 % 64) ∷ (0x80 + r % 64) ∷ []
    else (0xF0 + r / 262144) ∷ (0x80 + r / 4096 % 64) ∷ (0x80 + r / 64 % 64) ∷ (0x80 + r % 64) ∷ []

unfoldable pub encode_all : List ℕ → Text
unfolding encode
encode_all [] = []
encode_all (r ∷ rs) = encode r ++ encode_all rs

-- A code point that is no surrogate.
abbrev pub IsScalar : ℕ → Type 0
IsScalar r = (r ≤ 0x10FFFF) × (is_surrogate r ≡ false)
