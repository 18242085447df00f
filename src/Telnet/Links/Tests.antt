-- ===== src/Telnet/Links/Tests.antt =====
-- A pattern that finds one link.
use talkeqidea.Common.{
  ◌≡◌, refl, ◌∷◌, [], ◌++◌, none, some, Option, arith, Text, codes, text_eq, text_eq_iff,
  if◌then◌else◌, sym, inl, inr, Bool-cases, ◌∙◌,
}
use talkeqidea.Config.Whole.Tests.{console}
use talkeqidea.Golang.Strings.Counting.{count}
use talkeqidea.Telnet.Links.{LinkMatch, LinkPatterns, first_link, convert_links}
use talkeqidea.Telnet.Links.Ending.{mark, IsPlaced, FindsLinks, convert_links_ends}

abbrev linked : Text
linked = mark ∷ codes "00012AX" ++ mark ∷ []

abbrev place : LinkMatch
place = record { start = 0; stop = 9; id_start = 1; id_stop = 7; name_start = 7; name_stop = 8 }

abbrev find : Text → Option LinkMatch
find s = if text_eq s linked then some place else none

some-injective : {a b : LinkMatch} → ◌≡◌ {A = Option LinkMatch} (some a) (some b) → a ≡ b
some-injective h = cc

placed : IsPlaced linked place
unfolding count
placed = record { before = omega arith; opening = refl; closing = refl; plain_name = refl }

find-FindsLinks : FindsLinks find
find-FindsLinks s l h = elim (Bool-cases (text_eq s linked)) [
  | inl same ↦
      (let here : linked ≡ s = sym ((text_eq_iff s linked).0 same) in
        let found : find s ≡ some place = rw same in
        let it : place ≡ l = some-injective (sym found ∙ h) in rw (← here, ← it) placed)
  | inr other ↦ (let nothing : find s ≡ none = rw other in absurd (cc))
]

abbrev patterns : LinkPatterns
patterns = record { link71 = λ s. none; link50 = find; link39 = λ s. none; custom = none }

no_link-FindsLinks : FindsLinks (λ s. none)
no_link-FindsLinks s l h = absurd (cc)

convert_links_ends_example :
    (out : Text) × (convert_links patterns console 3 linked ≡ some out)
    × (first_link patterns out ≡ none)
unfolding count
convert_links_ends_example =
    convert_links_ends console refl patterns 3 linked
      (record {
        of71 = no_link-FindsLinks;
        of50 = find-FindsLinks;
        of39 = no_link-FindsLinks;
        no_custom = refl;
      })
      (omega arith)
