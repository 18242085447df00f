-- ===== src/Telnet/Links/Ending.antt =====
-- The recursion of convertLinks in telnet/telnet_msg.go ends.
use talkeqidea.Common.{
  ℕ, zero, suc, ◌+◌, ◌-◌, ◌≤◌, ◌<◌, ◌≡◌, ◌⊎◌, inl, inr, Bool, true, false, not, ◌&&◌, ◌++◌, Option,
  none, some, Option-cases, Text, codes, is_empty, take, drop, get_or, ltb, if◌then◌else◌, arith,
  refl, ap, ◌∙◌,
}
use talkeqidea.Golang.Strings.Counting.{
  count, count-append, count-trim_space, count-decimal, count-around,
}
use talkeqidea.Golang.Search.{decimal}
use talkeqidea.Config.Routes.{TelnetConf}
use talkeqidea.Telnet.Links.{
  LinkMatch, LinkPatterns, or_else, custom_link, first_link, slice, hex_digits, item_id, shown_link,
  convert_one, convert_links,
}

-- The byte 0x12, which begins and ends a link.
abbrev pub mark : ℕ
mark = 18

-- Where a match of a pattern for links stands: from one mark to another, with a name that has none.
pub record IsPlaced (s : Text) (l : LinkMatch) : Type 0 where
  pub before : l.start < l.stop - 1
  pub opening : get_or s l.start 0 ≡ mark
  pub closing : get_or s (l.stop - 1) 0 ≡ mark
  pub plain_name : count mark (slice s l.name_start l.name_stop) ≡ 0

-- What a pattern of the form `\x12...\x12` finds.
abbrev pub FindsLinks : (Text → Option LinkMatch) → Type 0
FindsLinks find = (s : Text) (l : LinkMatch) → find s ≡ some l → IsPlaced s l

-- The three patterns of the source, with none from the configuration.
pub record AreItemPatterns (p : LinkPatterns) : Type 0 where
  pub of71 : FindsLinks p.link71
  pub of50 : FindsLinks p.link50
  pub of39 : FindsLinks p.link39
  pub no_custom : p.custom ≡ none

or_else-some :
    {A : Type 0} (first later : Option A) (a : A)
    → or_else first later ≡ some a
    → (first ≡ some a) ⊎ (later ≡ some a)
unfolding or_else
or_else-some none later a h = inr h
or_else-some (some x) later a h = inl h

module _ (p : LinkPatterns) (laws : AreItemPatterns p) where
  custom_none : (s : Text) → custom_link p.custom s ≡ none
  unfolding custom_link
  custom_none s = rw laws.no_custom

  first_link-IsPlaced : (s : Text) (l : LinkMatch) → first_link p s ≡ some l → IsPlaced s l
  unfolding first_link
  first_link-IsPlaced s l h = elim (or_else-some _ _ l h) [
    | inl at71 ↦ laws.of71 s l at71
    | inr later ↦ elim (or_else-some _ _ l later) [
      | inl at50 ↦ laws.of50 s l at50
      | inr last ↦ elim (or_else-some _ _ l last) [
        | inl at39 ↦ laws.of39 s l at39
        | inr custom ↦ absurd (let nothing = custom_none s in cc)
      ]
    ]
  ]

free-append : (s t : Text) → count mark s ≡ 0 → count mark t ≡ 0 → count mark (s ++ t) ≡ 0
free-append s t hs ht = omega (arith, count-append mark s t)

free-if :
    (b : Bool) (s t : Text)
    → count mark s ≡ 0
    → count mark t ≡ 0
    → count mark (if b then s else t) ≡ 0
free-if true s t hs ht = hs
free-if false s t hs ht = ht

module _ (c : TelnetConf) (plain_url : count mark c.item_url ≡ 0) where
  free-target : (id : ℕ) → count mark (c.item_url ++ decimal id) ≡ 0
  free-target id =
      free-append c.item_url (decimal id) plain_url (count-decimal mark id (omega arith))

  count-shown_link :
      (id : ℕ) (name : Text) → count mark name ≡ 0 → count mark (shown_link c id name) ≡ 0
  unfolding shown_link count
  count-shown_link id name plain =
      let target = c.item_url ++ decimal id in
      let free = free-target id in
      let begun = codes "<" ++ target in
      let named = codes "[" ++ name in
      let free_named : count mark named ≡ 0 = free-append (codes "[") name refl plain in
      free-if c.is_legacy_links _ _
        (free-if (ltb 0 id && not (is_empty c.item_url)) _ _
          (free-if c.is_links_embedded _ _
            (free-append (target ++ codes " (" ++ name) (codes ")")
              (free-append (target ++ codes " (") name (free-append target (codes " (") free refl)
                plain)
              refl)
            (free-append (begun ++ codes "> (" ++ name) (codes ")")
              (free-append (begun ++ codes "> (") name
                (free-append begun (codes "> (") (free-append (codes "<") target refl free) refl)
                plain)
              refl))
          (free-append (codes "*" ++ name) (codes "* ") (free-append (codes "*") name refl plain)
            refl))
        (free-if c.is_links_embedded _ _
          (free-append (named ++ codes "](" ++ target) (codes ")")
            (free-append (named ++ codes "](") target
              (free-append named (codes "](") free_named refl) free)
            refl)
          (free-append (named ++ codes "](<" ++ target) (codes ">)")
            (free-append (named ++ codes "](<") target
              (free-append named (codes "](<") free_named refl) free)
            refl))

  count-convert_one :
      (s : Text) (l : LinkMatch) → IsPlaced s l → count mark (convert_one c s l) + 2 ≤ count mark s
  unfolding convert_one
  count-convert_one s l placed =
      let id = item_id (hex_digits 0 (slice s l.id_start l.id_stop)) in
      let name = slice s l.name_start l.name_stop in
      let shown = shown_link c id name in
      let after : suc (l.stop - 1) ≡ l.stop = omega (arith, placed.before) in
      let around =
        count-around mark s l.start (l.stop - 1) 0 (omega arith) placed.before placed.opening
          placed.closing in
      let trimmed : count mark (convert_one c s l)
          ≤ count mark (take l.start s ++ shown ++ drop l.stop s) =
        count-trim_space mark (take l.start s ++ shown ++ drop l.stop s) in
      omega (
        arith,
        around,
        trimmed,
        ap (λ (k : ℕ). count mark (drop k s)) after,
        count-shown_link id name placed.plain_name,
        count-append mark (take l.start s) shown,
        count-append mark (take l.start s ++ shown) (drop l.stop s),
      )

  convert_links-found :
      (p : LinkPatterns) (fuel : ℕ) (s : Text) (found : Option LinkMatch)
      → first_link p s ≡ found
      → convert_links p c (suc fuel) s
        ≡ elim found [ none ↦ some s | some l ↦ convert_links p c fuel (convert_one c s l) ]
  unfolding convert_links
  convert_links-found p fuel s found h =
      ap
        (λ found. elim found [
          | none ↦ some s
          | some l ↦ convert_links p c fuel (convert_one c s l)
        ])
        h

  -- Where a match of the patterns for item links runs from one byte 0x12 to another and its name has
  -- none, nothing else is configured as a pattern, and the address of the items has no such byte:
  -- more fuel than the text has bytes 0x12 is enough for the recursion to return, and what it
  -- returns has no link left.
  pub convert_links_ends :
      (p : LinkPatterns) (fuel : ℕ) (s : Text)
      → AreItemPatterns p
      → count mark s < fuel
      → (out : Text) × (convert_links p c fuel s ≡ some out) × (first_link p out ≡ none)
  convert_links_ends p zero s laws enough = absurd (omega arith)
  convert_links_ends p (suc fuel) s laws enough = elim (Option-cases (first_link p s)) [
    | inl nothing ↦ (s, convert_links-found p fuel s none nothing, nothing)
    | inr (l, found) ↦
        (let fewer = count-convert_one s l (first_link-IsPlaced p laws s l found) in
          let (out, converted, done) =
            convert_links_ends p fuel (convert_one c s l) laws (omega arith) in
          (out, convert_links-found p fuel s (some l) found ∙ converted, done))
  ]
