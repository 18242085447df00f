-- ===== src/Golang/Strings/Trim.antt =====
-- What trimming keeps.
use talkeqidea.Common.{false, ℕ, ◌≡◌, refl, [], ◌∷◌, arith, Text, All, All-append}
use talkeqidea.Golang.Utf8.{segments}
use talkeqidea.Golang.Strings.{
  Segments, drop_spaces, attach, drop_last_spaces, spell, trim_space, is_space,
}

module _ (P : ℕ × Text → Type 0) where
  drop_spaces-All : (ps : Segments) → All P ps → All P (drop_spaces ps)
  unfolding drop_spaces
  drop_spaces-All [] h = tt
  drop_spaces-All ((r, s) ∷ ps) (h, hs) = ground (arith, drop_spaces-All ps hs)

  attach-All : (r : ℕ) (s : Text) (ps : Segments) → P (r, s) → All P ps → All P (attach r s ps)
  unfolding attach
  attach-All r s [] h hs = ground arith
  attach-All r s (p ∷ ps) h hs = (h, hs)

  drop_last_spaces-All : (ps : Segments) → All P ps → All P (drop_last_spaces ps)
  unfolding drop_last_spaces
  drop_last_spaces-All [] h = tt
  drop_last_spaces-All ((r, s) ∷ ps) (h, hs) =
      attach-All r s (drop_last_spaces ps) h (drop_last_spaces-All ps hs)

spell-All : (P : ℕ → Type 0) (ps : Segments) → All (λ p. All P p.1) ps → All P (spell ps)
unfolding spell
spell-All P [] h = tt
spell-All P ((r, s) ∷ ps) (h, hs) = All-append P s (spell ps) h (spell-All P ps hs)

-- What holds of the bytes of every segment holds of the bytes that are left.
pub trim_space-All :
    (P : ℕ → Type 0) (s : Text) → All (λ p. All P p.1) (segments s) → All P (trim_space s)
unfolding trim_space
trim_space-All P s h =
    spell-All P _
      (drop_last_spaces-All (λ p. All P p.1) _ (drop_spaces-All (λ p. All P p.1) (segments s) h))

drop_spaces_none : (ps : Segments) → All (λ p. is_space p.0 ≡ false) ps → drop_spaces ps ≡ ps
unfolding drop_spaces
drop_spaces_none [] h = refl
drop_spaces_none ((r, s) ∷ ps) (h, hs) = rw h

attach_none : (r : ℕ) (s : Text) (ps : Segments) → is_space r ≡ false → attach r s ps ≡ (r, s) ∷ ps
unfolding attach
attach_none r s [] h = rw h
attach_none r s (p ∷ ps) h = refl

drop_last_spaces_none :
    (ps : Segments) → All (λ p. is_space p.0 ≡ false) ps → drop_last_spaces ps ≡ ps
unfolding drop_last_spaces
drop_last_spaces_none [] h = refl
drop_last_spaces_none ((r, s) ∷ ps) (h, hs) =
    rw (drop_last_spaces_none ps hs) (attach_none r s ps h)

-- A text none of whose runes is a space is left as it is.
pub trim_space_none :
    (s : Text) → All (λ p. is_space p.0 ≡ false) (segments s) → trim_space s ≡ spell (segments s)
unfolding trim_space
trim_space_none s h = rw (drop_spaces_none (segments s) h, drop_last_spaces_none (segments s) h)
