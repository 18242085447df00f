-- ===== src/Sanitize/Names.antt =====
-- The texts that `Name` and `ServerKey` return.
use talkeqidea.Common.{
  ℕ, ◌≤◌, ◌≡◌, refl, Bool, true, false, ◌||◌, List, [], ◌∷◌, arith, Text, All, All-imp, All-append,
  length, ◌==◌, keep,
}
use talkeqidea.Golang.Utf8.{encode_all, runes, is_between}
use talkeqidea.Golang.Ascii.{
  IsAscii, encode_all_ascii, runes_ascii, trim_space_ascii, to_lower_ascii,
}
use talkeqidea.Golang.Strings.{Unicode, LowersAscii, to_lower, trim_space, is_space}
use talkeqidea.Sanitize.Safe.{truncate-All, length-truncate-le}
use talkeqidea.Sanitize.{
  is_name_rune, name, key_rune, key_runes, server_key, max_name_len, truncate,
}

keep-passes : (p : ℕ → Bool) (rs : List ℕ) → All (λ r. p r ≡ true) (keep p rs)
keep-passes p [] = tt
keep-passes p (r ∷ rs) = ground (arith, keep-passes p rs)

keep-All : (p : ℕ → Bool) (rs : List ℕ) → All (λ r. p r ≡ true) rs → keep p rs ≡ rs
keep-All p [] h = refl
keep-All p (r ∷ rs) (h, hs) = ground (arith, keep-All p rs hs)

truncate_short : (s : Text) (max : ℕ) → length s ≤ max → truncate s max ≡ s
unfolding truncate
truncate_short s max h = ground arith

-- A byte that a name may hold.
abbrev pub IsNameByte : ℕ → Type 0
IsNameByte c = is_name_rune c ≡ true

name_rune-IsAscii : (r : ℕ) → IsNameByte r → IsAscii r
unfolding is_name_rune
name_rune-IsAscii r h = ground arith

kept_text : (rs : List ℕ) → All IsNameByte (encode_all (keep is_name_rune rs))
kept_text rs =
    rw
      (encode_all_ascii (keep is_name_rune rs) (
        All-imp IsNameByte IsAscii (keep is_name_rune rs) name_rune-IsAscii
          (keep-passes is_name_rune rs)))
      (keep-passes is_name_rune rs)

-- Every byte of a name is a letter, a digit or one of _ - . ', and there are at most 64.
pub name_clean : (s : Text) → All IsNameByte (name s) × (length (name s) ≤ max_name_len)
unfolding name
name_clean s =
    let t = encode_all (keep is_name_rune (runes s)) in
    (
      truncate-All IsNameByte t max_name_len (kept_text (runes s)),
      length-truncate-le t max_name_len (omega arith),
    )

-- A text of at most 64 such bytes is a name already.
name_of_clean : (s : Text) → All IsNameByte s → length s ≤ max_name_len → name s ≡ s
unfolding name
name_of_clean s h k =
    let a = All-imp IsNameByte IsAscii s name_rune-IsAscii h in
    rw (runes_ascii s a, keep-All is_name_rune s h, encode_all_ascii s a)
      (truncate_short s max_name_len k)

-- Sanitizing a name twice is sanitizing it once.
pub name_idem : (s : Text) → name (name s) ≡ name s
name_idem s = name_of_clean (name s) (name_clean s).0 (name_clean s).1

-- A byte that a server key may hold.
abbrev pub IsKeyByte : ℕ → Type 0
IsKeyByte c = (is_between b'a' b'z' c || is_between b'0' b'9' c || c == b'-' || c == b'_') ≡ true

key_rune-IsKeyByte : (r : ℕ) → All IsKeyByte (key_rune r)
unfolding key_rune
key_rune-IsKeyByte r = ground arith

key_runes-IsKeyByte : (rs : List ℕ) → All IsKeyByte (key_runes rs)
unfolding key_runes
key_runes-IsKeyByte [] = tt
key_runes-IsKeyByte (r ∷ rs) =
    All-append IsKeyByte (key_rune r) (key_runes rs) (key_rune-IsKeyByte r) (key_runes-IsKeyByte rs)

key_byte-IsAscii : (r : ℕ) → IsKeyByte r → IsAscii r
key_byte-IsAscii r h = ground arith

key_byte_no_space : (r : ℕ) → IsKeyByte r → is_space r ≡ false
unfolding is_space
key_byte_no_space r h = ground arith

key_byte_lower : (u : Unicode) → LowersAscii u → (r : ℕ) → IsKeyByte r → u.to_lower r ≡ r
key_byte_lower u l r h = ground (arith, l r)

key_runes-All : (rs : List ℕ) → All IsKeyByte rs → key_runes rs ≡ rs
unfolding key_runes key_rune
key_runes-All [] h = refl
key_runes-All (r ∷ rs) (h, hs) = rw h (rw (key_runes-All rs hs))

-- Every byte of a server key is a lower case letter, a digit, - or _, and there are at most 64.
pub server_key_clean :
    (u : Unicode) (s : Text)
    → All IsKeyByte (server_key u s) × (length (server_key u s) ≤ max_name_len)
unfolding server_key
server_key_clean u s =
    let ks = key_runes (runes (to_lower u (trim_space s))) in
    let k = key_runes-IsKeyByte (runes (to_lower u (trim_space s))) in
    let t = encode_all ks in
    (
      truncate-All IsKeyByte t max_name_len
          (rw (encode_all_ascii ks (All-imp IsKeyByte IsAscii ks key_byte-IsAscii k)) k),
      length-truncate-le t max_name_len (omega arith),
    )

server_key_of_clean :
    (u : Unicode) (s : Text)
    → LowersAscii u
    → All IsKeyByte s
    → length s ≤ max_name_len
    → server_key u s ≡ s
unfolding server_key
server_key_of_clean u s l h k =
    let a = All-imp IsKeyByte IsAscii s key_byte-IsAscii h in
    rw
      (
        trim_space_ascii s a (All-imp IsKeyByte (λ r. is_space r ≡ false) s key_byte_no_space h),
        to_lower_ascii u s a (All-imp IsKeyByte (λ r. u.to_lower r ≡ r) s (key_byte_lower u l) h),
        runes_ascii s a,
        key_runes-All s h,
        encode_all_ascii s a,
      )
      (truncate_short s max_name_len k)

-- A server key is its own server key, where the library lowers ASCII letters as it says: a key that
-- was stored is found again under the same spelling.
pub server_key_idem :
    (u : Unicode) (s : Text) → LowersAscii u → server_key u (server_key u s) ≡ server_key u s
server_key_idem u s l =
    server_key_of_clean u (server_key u s) l (server_key_clean u s).0 (server_key_clean u s).1
