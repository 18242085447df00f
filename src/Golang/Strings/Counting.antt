-- ===== src/Golang/Strings/Counting.antt =====
-- How often a byte stands in a text.
use talkeqidea.Common.{
  ℕ, zero, suc, ◌+◌, ◌-◌, ◌/◌, ◌%◌, ◌≤◌, ◌<◌, ◌≡◌, [], ◌∷◌, ◌++◌, Text, take, drop, get_or,
  take-append-drop, ◌==◌, if◌then◌else◌, arith, refl, ap,
}
use talkeqidea.Golang.Utf8.{segments, segments_from, decode}
use talkeqidea.Golang.Strings.{Segments, drop_spaces, attach, drop_last_spaces, spell, trim_space}
use talkeqidea.Golang.Search.{decimal_of, decimal}

unfoldable pub count : ℕ → Text → ℕ
count b [] = 0
count b (c ∷ cs) = (if c == b then 1 else 0) + count b cs

module _ (b : ℕ) where
  pub count-append : (s t : Text) → count b (s ++ t) ≡ count b s + count b t
  unfolding count
  count-append [] t = omega arith
  count-append (c ∷ cs) t = omega (arith, count-append cs t)

  count-take : (n : ℕ) (s : Text) → count b (take n s) + count b (drop n s) ≡ count b s
  count-take n s =
      omega (arith, count-append (take n s) (drop n s), ap (count b) (take-append-drop n s))

  count-take-drop :
      (n c : ℕ) (s : Text) → count b (take n (c ∷ s)) + count b (drop (n - 1) s) ≤ count b (c ∷ s)
  unfolding count
  count-take-drop zero c s = omega arith
  count-take-drop (suc n) c s =
      let e : suc n - 1 ≡ n = omega arith in rw e (omega (arith, count-take n s))

  count-spell : (k : ℕ) (s : Text) → count b (spell (segments_from k s)) ≤ count b (drop k s)
  unfolding spell segments_from count
  count-spell zero [] = omega arith
  count-spell (suc k) [] = omega arith
  count-spell (suc k) (c ∷ s) = count-spell k s
  count-spell zero (c ∷ s) =
      let w = (decode c s).1 in
      omega (
        arith,
        count-append (take w (c ∷ s)) (spell (segments_from (w - 1) s)),
        count-take-drop w c s,
        count-spell (w - 1) s,
      )

  count-drop_spaces : (ps : Segments) → count b (spell (drop_spaces ps)) ≤ count b (spell ps)
  unfolding drop_spaces spell
  count-drop_spaces [] = omega arith
  count-drop_spaces ((r, s) ∷ ps) = ground (arith, count-drop_spaces ps, count-append s (spell ps))

  count-attach :
      (r : ℕ) (s : Text) (ps : Segments)
      → count b (spell (attach r s ps)) ≤ count b s + count b (spell ps)
  unfolding attach spell
  count-attach r s [] = ground (arith, count-append s [])
  count-attach r s (p ∷ ps) = ground (arith, count-append s (spell (p ∷ ps)))

  count-drop_last_spaces :
      (ps : Segments) → count b (spell (drop_last_spaces ps)) ≤ count b (spell ps)
  unfolding drop_last_spaces spell
  count-drop_last_spaces [] = omega arith
  count-drop_last_spaces ((r, s) ∷ ps) = omega (
    arith,
    count-attach r s (drop_last_spaces ps),
    count-drop_last_spaces ps,
    count-append s (spell ps),
  )

  pub count-trim_space : (s : Text) → count b (trim_space s) ≤ count b s
  unfolding trim_space segments
  count-trim_space s = omega (
    arith,
    count-drop_last_spaces (drop_spaces (segments_from 0 s)),
    count-drop_spaces (segments_from 0 s),
    count-spell 0 s,
  )

  count-decimal_of :
      (fuel n : ℕ) (tail : Text) → b < 48 → count b (decimal_of fuel n tail) ≡ count b tail
  unfolding decimal_of count
  count-decimal_of zero n tail h = refl
  count-decimal_of (suc fuel) n tail h =
      ground (arith, count-decimal_of fuel (n / 10) ((b'0' + n % 10) ∷ tail) h)

  pub count-decimal : (n : ℕ) → b < 48 → count b (decimal n) ≡ 0
  unfolding decimal count
  count-decimal n h = count-decimal_of (suc n) n [] h

  -- What stands after a byte, and what stands around two of them.
  count-after :
      (s : Text) (j : ℕ) (d : ℕ)
      → d < b
      → get_or s j d ≡ b
      → count b (drop (suc j) s) + 1 ≤ count b s
  unfolding count
  count-after [] j d h at = absurd (omega arith)
  count-after (c ∷ s) zero d h at = ground arith
  count-after (c ∷ s) (suc j) d h at = omega (arith, count-after s j d h at)

  pub count-around :
      (s : Text) (i j : ℕ) (d : ℕ)
      → d < b
      → i < j
      → get_or s i d ≡ b
      → get_or s j d ≡ b
      → count b (take i s) + count b (drop (suc j) s) + 2 ≤ count b s
  unfolding count
  count-around [] i j d h before at later = absurd (omega arith)
  count-around (c ∷ s) zero zero d h before at later = absurd (omega arith)
  count-around (c ∷ s) zero (suc j) d h before at later = ground (arith, count-after s j d h later)
  count-around (c ∷ s) (suc i) zero d h before at later = absurd (omega arith)
  count-around (c ∷ s) (suc i) (suc j) d h before at later =
      omega (arith, count-around s i j d h (omega arith) at later)
