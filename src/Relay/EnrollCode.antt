-- ===== src/Relay/EnrollCode.antt =====
-- relay/enroll.go: the codes that an operator reads aloud.
pub mod Laws
mod Tests
use talkeqidea.Common.{
  ℕ, zero, suc, ◌+◌, ◌%◌, ◌≡◌, Bool, true, false, ◌&&◌, ◌||◌, not, List, [], ◌∷◌, ◌++◌, map, Text,
  codes, any, length, get_or, ltb, ◌==◌, if◌then◌else◌, Result, ok, err, refuse_if,
}
use talkeqidea.Golang.Utf8.{runes, encode, encode_all, segments}
use talkeqidea.Golang.Strings.{Unicode, Segments, to_upper, trim_space}

abbrev pub enroll_alphabet : Text
enroll_alphabet = codes "0123456789ABCDEFGHJKMNPQRSTVWXYZ"

abbrev pub enroll_code_length : ℕ
enroll_code_length = 12

-- `strings.ContainsRune(enrollAlphabet, r)`.
unfoldable pub in_alphabet : ℕ → Bool
in_alphabet r = any (λ c. c == r) enroll_alphabet

-- What one round of the loop of `NormalizeEnrollCode` writes.
unfoldable pub normal_rune : ℕ → List ℕ
normal_rune r =
    if r == b'-' || r == b' ' || r == 9
    then []
    else if r == b'O'
    then b'0' ∷ []
    else if r == b'I' || r == b'L'
    then b'1' ∷ []
    else if r == b'U'
    then b'V' ∷ []
    else if in_alphabet r
    then r ∷ []
    else []

unfoldable pub normal_runes : List ℕ → List ℕ
normal_runes [] = []
normal_runes (r ∷ rs) = normal_rune r ++ normal_runes rs

unfoldable pub normalize_enroll_code : Unicode → Text → Text
unfolding normal_runes normal_rune in_alphabet runes encode_all to_upper trim_space
normalize_enroll_code u code = encode_all (normal_runes (runes (to_upper u (trim_space code))))

-- The dash before every fourth character but the first.
unfoldable pub separator : ℕ → Text
separator i = if ltb 0 i && i % 4 == 0 then b'-' ∷ [] else []

-- The loop of `FormatEnrollCode`; `i` is the byte at which the rune begins.
unfoldable pub group : ℕ → Segments → Text
group i [] = []
group i ((r, s) ∷ rest) = separator i ++ (encode r ++ group (i + length s) rest)

unfoldable pub format_enroll_code : Unicode → Text → Text
format_enroll_code u code = group 0 (segments (normalize_enroll_code u code))

-- The loop of `NewEnrollCode`; the random numbers come from outside.
unfoldable pub new_symbols : ℕ → (ℕ → ℕ) → Text
new_symbols zero random = []
new_symbols (suc n) random = get_or enroll_alphabet (random n % 32) 0 ∷ new_symbols n random

unfoldable pub new_enroll_code : Unicode → (ℕ → ℕ) → Text
new_enroll_code u random = format_enroll_code u (new_symbols enroll_code_length random)

unfoldable pub validate_enroll_code : Unicode → Text → Result ℕ (Unit {0})
validate_enroll_code u code =
    let n = length (normalize_enroll_code u code) in refuse_if (not (n == enroll_code_length)) n
