-- ===== src/Relay/EnrollCode/Laws.antt =====
-- What the code's display form and its normal form have to do with one another.
use talkeqidea.Common.{
  ℕ, zero, suc, ◌+◌, ◌%◌, ◌≡◌, refl, ap, ◌∙◌, true, false, ◌||◌, List, [], ◌∷◌, ◌++◌, map, arith,
  append_assoc, Text, All, All-imp, All-append, All-get_or, length, ok, ◌==◌,
}
use talkeqidea.Golang.Utf8.{runes, encode, encode_all}
use talkeqidea.Golang.Ascii.{
  IsAscii, encode_ascii, segments_ascii, encode_all_ascii, runes_ascii, trim_space_ascii,
  to_upper_ascii,
}
use talkeqidea.Golang.Strings.{Unicode, Segments, RaisesAscii, to_upper, trim_space, is_space}
use talkeqidea.Relay.EnrollCode.{
  enroll_alphabet, enroll_code_length, in_alphabet, normal_rune, normal_runes,
  normalize_enroll_code, separator, group, format_enroll_code, new_symbols, new_enroll_code,
  validate_enroll_code,
}

-- A symbol of a code.
abbrev pub IsSymbol : ℕ → Type 0
IsSymbol c = in_alphabet c ≡ true

-- A symbol, or the dash between two groups.
abbrev IsShown : ℕ → Type 0
IsShown c = (in_alphabet c || c == b'-') ≡ true

normal_rune-IsSymbol : (r : ℕ) → All IsSymbol (normal_rune r)
unfolding normal_rune in_alphabet
normal_rune-IsSymbol r = ground arith

normal_runes-IsSymbol : (rs : List ℕ) → All IsSymbol (normal_runes rs)
unfolding normal_runes
normal_runes-IsSymbol [] = tt
normal_runes-IsSymbol (r ∷ rs) =
    All-append IsSymbol (normal_rune r) (normal_runes rs) (normal_rune-IsSymbol r)
      (normal_runes-IsSymbol rs)

shown-IsAscii : (r : ℕ) → IsShown r → IsAscii r
unfolding in_alphabet
shown-IsAscii r h = ground arith

shown_no_space : (r : ℕ) → IsShown r → is_space r ≡ false
unfolding is_space in_alphabet
shown_no_space r h = ground arith

shown_upper : (u : Unicode) → RaisesAscii u → (r : ℕ) → IsShown r → u.to_upper r ≡ r
unfolding in_alphabet
shown_upper u l r h = ground (arith, l r)

symbol-IsShown : (r : ℕ) → IsSymbol r → IsShown r
symbol-IsShown r h = ground arith

normal_rune_symbol : (r : ℕ) → IsSymbol r → normal_rune r ≡ r ∷ []
unfolding normal_rune in_alphabet
normal_rune_symbol r h = ground arith

normal_runes-append :
    (rs ss : List ℕ) → normal_runes (rs ++ ss) ≡ normal_runes rs ++ normal_runes ss
unfolding normal_runes
normal_runes-append [] ss = refl
normal_runes-append (r ∷ rs) ss =
    rw (normal_runes-append rs ss, append_assoc (normal_rune r) (normal_runes rs) (normal_runes ss))

normal_runes_symbols : (rs : List ℕ) → All IsSymbol rs → normal_runes rs ≡ rs
unfolding normal_runes
normal_runes_symbols [] h = refl
normal_runes_symbols (r ∷ rs) (h, hs) = rw (normal_rune_symbol r h, normal_runes_symbols rs hs)

symbol-IsAscii : (r : ℕ) → IsSymbol r → IsAscii r
symbol-IsAscii r h = shown-IsAscii r (symbol-IsShown r h)

normal_text : (rs : List ℕ) → encode_all (normal_runes rs) ≡ normal_runes rs
normal_text rs =
    encode_all_ascii (normal_runes rs)
      (All-imp IsSymbol IsAscii (normal_runes rs) symbol-IsAscii (normal_runes-IsSymbol rs))

-- On text in the display form only the loop does anything.
normalize_shown :
    (u : Unicode) (s : Text)
    → RaisesAscii u
    → All IsShown s
    → normalize_enroll_code u s ≡ normal_runes s
unfolding normalize_enroll_code
normalize_shown u s l h =
    let a = All-imp IsShown IsAscii s shown-IsAscii h in
    rw
      (
        trim_space_ascii s a (All-imp IsShown (λ r. is_space r ≡ false) s shown_no_space h),
        to_upper_ascii u s a (All-imp IsShown (λ r. u.to_upper r ≡ r) s (shown_upper u l) h),
        runes_ascii s a,
      )
      (normal_text s)

normalize-IsSymbol : (u : Unicode) (code : Text) → All IsSymbol (normalize_enroll_code u code)
unfolding normalize_enroll_code
normalize-IsSymbol u code =
    let rs = runes (to_upper u (trim_space code)) in rw (normal_text rs) (normal_runes-IsSymbol rs)

normalize_symbols :
    (u : Unicode) (s : Text) → RaisesAscii u → All IsSymbol s → normalize_enroll_code u s ≡ s
normalize_symbols u s l h =
    normalize_shown u s l (All-imp IsSymbol IsShown s symbol-IsShown h) ∙ normal_runes_symbols s h

abbrev spelled : List ℕ → Segments
spelled = map (λ r. (r, encode r))

separator-IsShown : (i : ℕ) → All IsShown (separator i)
unfolding separator in_alphabet
separator-IsShown i = ground arith

normal_runes-separator : (i : ℕ) → normal_runes (separator i) ≡ []
unfolding separator normal_runes normal_rune
normal_runes-separator i = ground arith

normal_runes-cons : (r : ℕ) (rs : List ℕ) → IsSymbol r → normal_runes (r ∷ rs) ≡ r ∷ normal_runes rs
unfolding normal_runes
normal_runes-cons r rs h = rw (normal_rune_symbol r h)

group-IsShown : (i : ℕ) (rs : List ℕ) → All IsSymbol rs → All IsShown (group i (spelled rs))
unfolding group
group-IsShown i [] h = tt
group-IsShown i (r ∷ rs) (h, hs) = rw (encode_ascii r (symbol-IsAscii r h)) (
    All-append IsShown (separator i) (r ∷ group (i + 1) (spelled rs)) (separator-IsShown i)
      (symbol-IsShown r h, group-IsShown (i + 1) rs hs))

normal_runes-group :
    (i : ℕ) (rs : List ℕ) → All IsSymbol rs → normal_runes (group i (spelled rs)) ≡ rs
unfolding group
normal_runes-group i [] h = unfold normal_runes in refl
normal_runes-group i (r ∷ rs) (h, hs) =
    rw
      (
        encode_ascii r (symbol-IsAscii r h),
        normal_runes-append (separator i) (r ∷ group (i + 1) (spelled rs)),
        normal_runes-separator i,
      )
      (normal_runes-cons r (group (i + 1) (spelled rs)) h
        ∙ ap (λ (t : Text). r ∷ t) (normal_runes-group (i + 1) rs hs))

format_eq :
    (u : Unicode) (code : Text)
    → format_enroll_code u code ≡ group 0 (spelled (normalize_enroll_code u code))
unfolding format_enroll_code
format_eq u code =
    ap (group 0)
      (segments_ascii _ (All-imp IsSymbol IsAscii _ symbol-IsAscii (normalize-IsSymbol u code)))

-- Reading a displayed code gives the same normal form as reading the code itself.
pub normalize-format :
    (u : Unicode) (code : Text)
    → RaisesAscii u
    → normalize_enroll_code u (format_enroll_code u code) ≡ normalize_enroll_code u code
normalize-format u code l =
    let s = normalize_enroll_code u code in
    let h = normalize-IsSymbol u code in
    rw (format_eq u code)
      (normalize_shown u (group 0 (spelled s)) l (group-IsShown 0 s h) ∙ normal_runes-group 0 s h)

-- Normalizing twice is normalizing once, and every character of the result is of the alphabet.
pub normalize_idem :
    (u : Unicode) (code : Text)
    → RaisesAscii u
    → (normalize_enroll_code u (normalize_enroll_code u code) ≡ normalize_enroll_code u code)
      × All IsSymbol (normalize_enroll_code u code)
normalize_idem u code l = (
  normalize_symbols u (normalize_enroll_code u code) l (normalize-IsSymbol u code),
  normalize-IsSymbol u code,
)

alphabet-IsSymbol : All IsSymbol enroll_alphabet
unfolding in_alphabet
alphabet-IsSymbol = ground arith

new_symbols-IsSymbol : (n : ℕ) (random : ℕ → ℕ) → All IsSymbol (new_symbols n random)
unfolding new_symbols
new_symbols-IsSymbol zero random = tt
new_symbols-IsSymbol (suc n) random = (
  All-get_or IsSymbol enroll_alphabet (random n % 32) 0 alphabet-IsSymbol (omega arith),
  new_symbols-IsSymbol n random,
)

length-new_symbols : (n : ℕ) (random : ℕ → ℕ) → length (new_symbols n random) ≡ n
unfolding new_symbols
length-new_symbols zero random = refl
length-new_symbols (suc n) random = ap suc (length-new_symbols n random)

-- A code that the hub issues is well formed when it is typed as it was shown.
pub validate-new_enroll_code :
    (u : Unicode) (random : ℕ → ℕ)
    → RaisesAscii u
    → validate_enroll_code u (new_enroll_code u random) ≡ ok tt
unfolding validate_enroll_code new_enroll_code
validate-new_enroll_code u random l =
    let s = new_symbols enroll_code_length random in
    rw (
      normalize-format u s l,
      normalize_symbols u s l (new_symbols-IsSymbol 12 random),
      length-new_symbols 12 random,
    )
