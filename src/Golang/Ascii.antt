-- ===== src/Golang/Ascii.antt =====
-- ASCII text as runes.
use talkeqidea.Common.{
  ℕ, ◌<◌, ◌≡◌, refl, ap, sym, ◌∙◌, false, List, [], ◌∷◌, map, arith, Text, All, All-imp,
}
use talkeqidea.Golang.Utf8.{encode, encode_all, runes, IsScalar, segments}
use talkeqidea.Golang.Utf8.RoundTrip.{runes-encode_all, segments-encode_all}
use talkeqidea.Golang.Strings.{Unicode, to_lower, to_upper, trim_space, is_space, spell}
use talkeqidea.Golang.Strings.Trim.{trim_space_none}

abbrev pub IsAscii : ℕ → Type 0
IsAscii r = r < 128

pub encode_ascii : (r : ℕ) → IsAscii r → encode r ≡ r ∷ []
unfolding encode
encode_ascii r h = ground arith

pub encode_all_ascii : (rs : List ℕ) → All IsAscii rs → encode_all rs ≡ rs
unfolding encode_all
encode_all_ascii [] h = refl
encode_all_ascii (r ∷ rs) (h, hs) = rw (encode_ascii r h, encode_all_ascii rs hs)

IsAscii-IsScalar : (r : ℕ) → IsAscii r → IsScalar r
IsAscii-IsScalar r h = ground arith

pub runes_ascii : (s : Text) → All IsAscii s → runes s ≡ s
runes_ascii s h =
    ap runes (sym (encode_all_ascii s h))
    ∙ runes-encode_all s (All-imp IsAscii IsScalar s IsAscii-IsScalar h)

pub segments_ascii : (s : Text) → All IsAscii s → segments s ≡ map (λ r. (r, encode r)) s
segments_ascii s h =
    ap segments (sym (encode_all_ascii s h))
    ∙ segments-encode_all s (All-imp IsAscii IsScalar s IsAscii-IsScalar h)

spell-map : (rs : List ℕ) → spell (map (λ r. (r, encode r)) rs) ≡ encode_all rs
unfolding spell encode_all
spell-map [] = refl
spell-map (r ∷ rs) = rw (spell-map rs)

map-All :
    (P : ℕ → Type 0) (rs : List ℕ)
    → All P rs
    → All (λ (p : ℕ × Text). P p.0) (map (λ r. (r, encode r)) rs)
map-All P [] h = tt
map-All P (r ∷ rs) (h, hs) = (h, map-All P rs hs)

-- ASCII text with no space in it is not trimmed.
pub trim_space_ascii :
    (s : Text) → All IsAscii s → All (λ r. is_space r ≡ false) s → trim_space s ≡ s
trim_space_ascii s h n =
    trim_space_none s (rw (segments_ascii s h) (map-All (λ r. is_space r ≡ false) s n))
    ∙ ap spell (segments_ascii s h)
    ∙ spell-map s
    ∙ encode_all_ascii s h

map_fixed : (f : ℕ → ℕ) (s : Text) → All (λ r. f r ≡ r) s → map f s ≡ s
map_fixed f [] h = refl
map_fixed f (r ∷ s) (h, hs) = rw (h, map_fixed f s hs)

-- ASCII text whose characters are their own lower case is not changed.
pub to_lower_ascii :
    (u : Unicode) (s : Text) → All IsAscii s → All (λ r. u.to_lower r ≡ r) s → to_lower u s ≡ s
unfolding to_lower
to_lower_ascii u s h k = rw (runes_ascii s h, map_fixed u.to_lower s k) (encode_all_ascii s h)

-- ASCII text whose characters are their own upper case is not changed.
pub to_upper_ascii :
    (u : Unicode) (s : Text) → All IsAscii s → All (λ r. u.to_upper r ≡ r) s → to_upper u s ≡ s
unfolding to_upper
to_upper_ascii u s h k = rw (runes_ascii s h, map_fixed u.to_upper s k) (encode_all_ascii s h)
