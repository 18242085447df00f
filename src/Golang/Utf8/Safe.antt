-- ===== src/Golang/Utf8/Safe.antt =====
-- The bytes below 128 in decoding and encoding.
use talkeqidea.Common.{
  ℕ, zero, suc, ◌-◌, ◌≤◌, ◌≢◌, List, [], ◌∷◌, map, arith, Text, All, All-append, All-take, All-imp,
}
use talkeqidea.Golang.Utf8.{
  decode_two, decode_three, decode_four, decode, segments_from, segments, runes, encode, encode_all,
}

-- A byte or rune that is none of NUL, LF and CR.
abbrev pub IsInline : ℕ → Type 0
IsInline c = (c ≢ 0) × (c ≢ 10) × (c ≢ 13)

pub encode-IsInline : (r : ℕ) → IsInline r → All IsInline (encode r)
unfolding encode
encode-IsInline r h = ground arith

pub encode_all-IsInline : (rs : List ℕ) → All IsInline rs → All IsInline (encode_all rs)
unfolding encode_all
encode_all-IsInline [] h = tt
encode_all-IsInline (r ∷ rs) (h, hs) =
    All-append IsInline (encode r) (encode_all rs) (encode-IsInline r h) (encode_all-IsInline rs hs)

decode_two-le : (b : ℕ) (s : Text) → 0xC2 ≤ b → 0x80 ≤ (decode_two b s).0
unfolding decode_two
decode_two-le b [] h = omega arith
decode_two-le b (c ∷ _) h = ground arith

decode_three-le : (b : ℕ) (s : Text) → 0xE0 ≤ b → 0x80 ≤ (decode_three b s).0
unfolding decode_three
decode_three-le b [] h = omega arith
decode_three-le b (c ∷ []) h = omega arith
decode_three-le b (c ∷ d ∷ _) h = ground arith

decode_four-le : (b : ℕ) (s : Text) → 0xF0 ≤ b → 0x80 ≤ (decode_four b s).0
unfolding decode_four
decode_four-le b [] h = omega arith
decode_four-le b (c ∷ []) h = omega arith
decode_four-le b (c ∷ d ∷ []) h = omega arith
decode_four-le b (c ∷ d ∷ e ∷ _) h = ground arith

pub decode-IsInline : (b : ℕ) (s : Text) → IsInline b → IsInline (decode b s).0
unfolding decode
decode-IsInline b s h = ground (arith, decode_two-le b s, decode_three-le b s, decode_four-le b s)

abbrev IsInlineSegment : ℕ × Text → Type 0
IsInlineSegment (r, s) = IsInline r × All IsInline s

segments_from-IsInline :
    (k : ℕ) (s : Text) → All IsInline s → All IsInlineSegment (segments_from k s)
unfolding segments_from
segments_from-IsInline k [] h = tt
segments_from-IsInline (suc k) (b ∷ s) (h, hs) = segments_from-IsInline k s hs
segments_from-IsInline zero (b ∷ s) (h, hs) = (
  (decode-IsInline b s h, All-take IsInline (decode b s).1 (b ∷ s) (h, hs)),
  segments_from-IsInline ((decode b s).1 - 1) s hs,
)

segments-IsInline : (s : Text) → All IsInline s → All IsInlineSegment (segments s)
unfolding segments
segments-IsInline s h = segments_from-IsInline 0 s h

pub segments_bytes-IsInline : (s : Text) → All IsInline s → All (λ p. All IsInline p.1) (segments s)
segments_bytes-IsInline s h =
    All-imp IsInlineSegment (λ p. All IsInline p.1) (segments s) (λ p k. k.1)
      (segments-IsInline s h)

map-IsInline : (ps : List (ℕ × Text)) → All IsInlineSegment ps → All IsInline (map (λ p. p.0) ps)
map-IsInline [] h = tt
map-IsInline ((r, s) ∷ ps) (h, hs) = (h.0, map-IsInline ps hs)

pub runes-IsInline : (s : Text) → All IsInline s → All IsInline (runes s)
unfolding runes
runes-IsInline s h = map-IsInline (segments s) (segments-IsInline s h)
