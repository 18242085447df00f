-- ===== src/Golang/Search.antt =====
-- The parts of `strings` that look for something in a text, and `strconv` for decimal numbers.
use talkeqidea.Common.{
  ℕ, zero, suc, ◌+◌, ◌-◌, ◌*◌, ◌/◌, ◌%◌, ◌^◌, Bool, true, false, ◌&&◌, ◌||◌, List, [], ◌∷◌, ◌++◌,
  Option, none, some, Text, length, ltb, leb, ◌==◌, if◌then◌else◌, ℤ, pos, negsuc,
}

-- What follows a prefix.
unfoldable pub after_prefix : Text → Text → Option Text
after_prefix [] s = some s
after_prefix (p ∷ ps) [] = none
after_prefix (p ∷ ps) (c ∷ cs) = let rest = after_prefix ps cs in if p == c then rest else none

abbrev pub is_some {ℓ} : {A : Type ℓ} → Option A → Bool
is_some none = false
is_some (some a) = true

unfoldable pub has_prefix : Text → Text → Bool
has_prefix p s = is_some (after_prefix p s)

-- `strings.Contains`.
unfoldable pub contains : Text → Text → Bool
contains part [] = has_prefix part []
contains part (c ∷ cs) = has_prefix part (c ∷ cs) || contains part cs

-- `strings.ReplaceAll` for a text that is not empty: what was replaced is skipped.
unfoldable pub replace_from : Text → Text → ℕ → Text → Text
replace_from old new skip [] = []
replace_from old new (suc skip) (c ∷ cs) = replace_from old new skip cs
replace_from old new zero (c ∷ cs) =
    let replaced = new ++ replace_from old new (length old - 1) cs in
    let kept = c ∷ replace_from old new zero cs in
    if has_prefix old (c ∷ cs) then replaced else kept

unfoldable pub replace_all : Text → Text → Text → Text
replace_all old new s = replace_from old new 0 s

-- The same for one byte.
unfoldable pub replace_byte : ℕ → Text → Text → Text
replace_byte old new [] = []
replace_byte old new (c ∷ cs) =
    let rest = replace_byte old new cs in if c == old then new ++ rest else c ∷ rest

unfoldable pub attach_part : ℕ → List Text → List Text
attach_part c [] = (c ∷ []) ∷ []
attach_part c (part ∷ parts) = (c ∷ part) ∷ parts

-- `strings.Split` on one byte.
unfoldable pub split_on : ℕ → Text → List Text
split_on sep [] = [] ∷ []
split_on sep (c ∷ cs) =
    let parts = split_on sep cs in if c == sep then [] ∷ parts else attach_part c parts

-- What stands before the first of a byte, and after it.
unfoldable pub attach_before : ℕ → Option (Text × Text) → Option (Text × Text)
attach_before c none = none
attach_before c (some (before, after)) = some (c ∷ before, after)

unfoldable pub cut_at : ℕ → Text → Option (Text × Text)
cut_at sep [] = none
cut_at sep (c ∷ cs) =
    let later = cut_at sep cs in if c == sep then some ([], cs) else attach_before c later

abbrev pub is_digit : ℕ → Bool
is_digit c = leb b'0' c && leb c b'9'

unfoldable pub digits_from : ℕ → Text → Option ℕ
digits_from n [] = some n
digits_from n (c ∷ cs) =
    let rest = digits_from (n * 10 + (c - b'0')) cs in if is_digit c then rest else none

unfoldable pub digits : Text → Option ℕ
digits [] = none
digits (c ∷ cs) = digits_from 0 (c ∷ cs)

unfoldable pub in_range : ℕ → (ℕ → ℤ) → Option ℕ → Option ℤ
in_range limit sign none = none
in_range limit sign (some n) = if leb n limit then some (sign n) else none

abbrev pub negated : ℕ → ℤ
negated zero = pos 0
negated (suc n) = negsuc n

-- `strconv.Atoi` on 64 bits.
unfoldable pub atoi : Text → Option ℤ
atoi [] = none
atoi (c ∷ cs) =
    if c == b'-'
    then in_range (2 ^ 63) negated (digits cs)
    else if c == b'+'
    then in_range (2 ^ 63 - 1) pos (digits cs)
    else in_range (2 ^ 63 - 1) pos (digits (c ∷ cs))

-- `%d`; a number has no more digits than the fuel that it is given.
unfoldable pub decimal_of : ℕ → ℕ → Text → Text
decimal_of zero n tail = tail
decimal_of (suc fuel) n tail =
    let longer = decimal_of fuel (n / 10) ((b'0' + n % 10) ∷ tail) in
    if ltb n 10 then (b'0' + n) ∷ tail else longer

unfoldable pub decimal : ℕ → Text
decimal n = decimal_of (suc n) n []
