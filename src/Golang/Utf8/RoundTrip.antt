-- ===== src/Golang/Utf8/RoundTrip.antt =====
-- Decoding what was encoded.
use talkeqidea.Common.{
  ℕ, ◌+◌, ◌/◌, ◌%◌, ◌≤◌, ◌<◌, ◌≡◌, refl, ap, ◌∙◌, inl, inr, Bool-cases, List, [], ◌∷◌, ◌++◌, map,
  arith, Text, All, false, ltb,
}
use talkeqidea.Golang.Utf8.{
  decode_two, decode_three, decode_four, decode, segments_from, segments, runes, encode, encode_all,
  IsScalar, is_surrogate,
}

decode_of_one : (r : ℕ) (s : Text) → r < 0x80 → decode r s ≡ (r, 1)
unfolding decode
decode_of_one r s h = ground arith

decode_of_two :
    (r : ℕ) (s : Text)
    → 0x80 ≤ r
    → r < 0x800
    → decode (0xC0 + r / 64) ((0x80 + r % 64) ∷ s) ≡ (r, 2)
unfolding decode decode_two
decode_of_two r s h k = ground arith

decode_three_lem :
    (r : ℕ) (s : Text)
    → 0x800 ≤ r
    → r < 0x10000
    → is_surrogate r ≡ false
    → decode_three (0xE0 + r / 4096) ((0x80 + r / 64 % 64) ∷ (0x80 + r % 64) ∷ s) ≡ (r, 3)
unfolding decode_three
decode_three_lem r s h k n = ground arith

decode_of_three :
    (r : ℕ) (s : Text)
    → 0x800 ≤ r
    → r < 0x10000
    → is_surrogate r ≡ false
    → decode (0xE0 + r / 4096) ((0x80 + r / 64 % 64) ∷ (0x80 + r % 64) ∷ s) ≡ (r, 3)
unfolding decode
decode_of_three r s h k n = ground (arith, decode_three_lem r s h k n)

decode_four_lem :
    (r : ℕ) (s : Text)
    → 0x10000 ≤ r
    → r ≤ 0x10FFFF
    → decode_four
        (0xF0 + r / 262144)
        ((0x80 + r / 4096 % 64) ∷ (0x80 + r / 64 % 64) ∷ (0x80 + r % 64) ∷ s)
      ≡ (r, 4)
unfolding decode_four
decode_four_lem r s h k = ground arith

decode_of_four :
    (r : ℕ) (s : Text)
    → 0x10000 ≤ r
    → r ≤ 0x10FFFF
    → decode
        (0xF0 + r / 262144)
        ((0x80 + r / 4096 % 64) ∷ (0x80 + r / 64 % 64) ∷ (0x80 + r % 64) ∷ s)
      ≡ (r, 4)
unfolding decode
decode_of_four r s h k = ground (arith, decode_four_lem r s h k)

-- Which of the four forms a code point is encoded in.
data Form (r : ℕ) : Type 0 where
  one : r < 0x80 → encode r ≡ r ∷ [] → Form r
  two : 0x80 ≤ r → r < 0x800 → encode r ≡ (0xC0 + r / 64) ∷ (0x80 + r % 64) ∷ [] → Form r
  three :
      0x800 ≤ r
      → r < 0x10000
      → is_surrogate r ≡ false
      → encode r ≡ (0xE0 + r / 4096) ∷ (0x80 + r / 64 % 64) ∷ (0x80 + r % 64) ∷ []
      → Form r
  four :
      0x10000 ≤ r
      → r ≤ 0x10FFFF
      → encode r
        ≡ (0xF0 + r / 262144) ∷ (0x80 + r / 4096 % 64) ∷ (0x80 + r / 64 % 64) ∷ (0x80 + r % 64) ∷ []
      → Form r

form : (r : ℕ) → IsScalar r → Form r
unfolding encode
form r (fits, plain) = elim (Bool-cases (ltb r 0x80)) [
  | inl h ↦ one (ground arith) (ground arith)
  | inr h ↦ elim (Bool-cases (ltb r 0x800)) [
    | inl k ↦ two (ground arith) (ground arith) (ground arith)
    | inr k ↦ elim (Bool-cases (ltb r 0x10000)) [
      | inl n ↦ three (ground arith) (ground arith) plain (ground arith)
      | inr n ↦ four (ground arith) fits (ground arith)
    ]
  ]
]

-- The segments of a text that begins with an encoded code point begin with that code point.
pub segments_from-encode :
    (r : ℕ) (s : Text)
    → IsScalar r
    → segments_from 0 (encode r ++ s) ≡ (r, encode r) ∷ segments_from 0 s
segments_from-encode r s h = go (form r h)
  where
    go : Form r → segments_from 0 (encode r ++ s) ≡ (r, encode r) ∷ segments_from 0 s
    go (one a e) = rw e (unfold segments_from in rw (decode_of_one r s a))
    go (two a b e) = rw e (unfold segments_from in rw (decode_of_two r s a b))
    go (three a b c e) = rw e (unfold segments_from in rw (decode_of_three r s a b c))
    go (four a b e) = rw e (unfold segments_from in rw (decode_of_four r s a b))

pub segments-encode_all :
    (rs : List ℕ) → All IsScalar rs → segments (encode_all rs) ≡ map (λ r. (r, encode r)) rs
unfolding segments encode_all
segments-encode_all [] h = refl
segments-encode_all (r ∷ rs) (h, hs) =
    segments_from-encode r (encode_all rs) h
    ∙ ap (λ (t : List (ℕ × Text)). (r, encode r) ∷ t) (segments-encode_all rs hs)

map_first : (rs : List ℕ) → map (λ (p : ℕ × Text). p.0) (map (λ r. (r, encode r)) rs) ≡ rs
map_first [] = refl
map_first (r ∷ rs) = ap (λ (t : List ℕ). r ∷ t) (map_first rs)

-- Every list of code points is read back from its UTF-8 text.
pub runes-encode_all : (rs : List ℕ) → All IsScalar rs → runes (encode_all rs) ≡ rs
unfolding runes
runes-encode_all rs h = rw (segments-encode_all rs h) (map_first rs)
