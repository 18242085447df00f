-- ===== src/Sanitize/Boundary.antt =====
-- Where `truncate` cuts.
use Prim.Native.Nat.{bit_and}
use talkeqidea.Common.{
  ℕ, zero, suc, ◌-◌, ◌≤◌, ◌<◌, ◌≡◌, ◌≢◌, ◌⊎◌, refl, ap, Bool, true, false, not, ◌&&◌, ◌||◌, drop,
  length-drop, All-get_or, ◌∙◌, ltb→lt, get_or-append_lt, get_or-append_le, take-append_le,
  take_all, List, [], ◌∷◌, ◌++◌, arith, Text, All, length, length-append, ◌==◌, leb, ltb, take,
  get_or, Bool-cases, inl, inr,
}
use talkeqidea.Golang.Utf8.{encode, encode_all, is_continuation}
use talkeqidea.Sanitize.Safe.{rune_start_before-le}
use talkeqidea.Sanitize.{is_rune_start, rune_start_before, truncate}

-- A test of every byte below a bound.
holds_below : (ℕ → Bool) → ℕ → Bool
holds_below test zero = true
holds_below test (suc bound) = holds_below test bound && test bound

holds_below-lt :
    (test : ℕ → Bool) (bound byte : ℕ)
    → byte < bound
    → holds_below test bound ≡ true
    → test byte ≡ true
unfolding holds_below
holds_below-lt test zero byte below all = absurd (omega arith)
holds_below-lt test (suc bound) byte below all = ground (arith, holds_below-lt test bound byte)

no_start : ℕ → Bool
no_start b = not (is_continuation b) || bit_and b 0xC0 == 0x80

no_start_table : holds_below no_start 256 ≡ true
unfolding holds_below no_start
no_start_table = refl

-- No continuation byte starts a rune.
continuation_no_start : (b : ℕ) → is_continuation b ≡ true → is_rune_start b ≡ false
unfolding is_rune_start no_start
continuation_no_start b h =
    ground (arith, holds_below-lt no_start 256 b (ground arith) no_start_table)

encode-tail : (r : ℕ) → All (λ c. is_continuation c ≡ true) (drop 1 (encode r))
unfolding encode
encode-tail r = ground arith

length-encode-pos : (r : ℕ) → 0 < length (encode r)
unfolding encode
length-encode-pos r = ground arith

get_or-drop_one : (s : Text) (p : ℕ) → get_or s (suc p) 0 ≡ get_or (drop 1 s) p 0
get_or-drop_one [] p = refl
get_or-drop_one (c ∷ s) p = refl

-- Where a byte inside the encoding of a code point stands, no rune starts.
encode_inside :
    (r p : ℕ) → 0 < p → p < length (encode r) → is_rune_start (get_or (encode r) p 0) ≡ false
encode_inside r zero h k = absurd (omega arith)
encode_inside r (suc p) h k = rw (get_or-drop_one (encode r) p) (
    continuation_no_start _ (
      All-get_or (λ c. is_continuation c ≡ true) (drop 1 (encode r)) p 0 (encode-tail r)
        (omega (arith, length-drop 1 (encode r)))))

-- Zero, or a position where a rune starts.
abbrev IsCut : Text → ℕ → Type 0
IsCut s p = (p ≡ 0) ⊎ (is_rune_start (get_or s p 0) ≡ true)

rune_start_before-IsCut : (s : Text) (max : ℕ) → IsCut s (rune_start_before s max)
unfolding rune_start_before
rune_start_before-IsCut s zero = inl refl
rune_start_before-IsCut s (suc max) = elim (Bool-cases (is_rune_start (get_or s (suc max) 0))) [
  | inl h ↦ rw (h, rune_start_before) (inr h)
  | inr h ↦ rw (h, rune_start_before) (rune_start_before-IsCut s max)
]

IsCut-outside :
    (r p : ℕ) (rest : Text)
    → p ≢ 0
    → IsCut (encode r ++ rest) p
    → (length (encode r) ≤ p) × IsCut rest (p - length (encode r))
IsCut-outside r p rest n (inl z) = absurd (n z)
IsCut-outside r p rest n (inr start) = elim (Bool-cases (ltb p (length (encode r)))) [
  | inl h ↦ ground (
    arith,
    get_or-append_lt (encode r) rest p 0 (ltb→lt p (length (encode r)) h),
    encode_inside r p,
  )
  | inr h ↦
      let far : length (encode r) ≤ p = ground arith in
      (far, inr (rw (get_or-append_le (encode r) rest p 0 far) at start))
]

cut_at_start :
    (rs : List ℕ) (p : ℕ)
    → p < length (encode_all rs)
    → IsCut (encode_all rs) p
    → (k : ℕ) × (take p (encode_all rs) ≡ encode_all (take k rs))
unfolding encode_all
cut_at_start [] p h b = absurd (omega arith)
cut_at_start (r ∷ rs) zero h b = (0, refl)
cut_at_start (r ∷ rs) (suc p) h b =
    let (far, rest) = IsCut-outside r (suc p) (encode_all rs) (omega arith) b in
    let (k, e) =
      cut_at_start rs (suc p - length (encode r))
        (omega (arith, length-append (encode r) (encode_all rs))) rest in
    (
      suc k,
      take-append_le (encode r) (encode_all rs) (suc p) far ∙ ap (λ (t : Text). encode r ++ t) e,
    )

-- A text of whole code points is cut to whole code points: a prefix of them.
pub truncate-encode_all :
    (rs : List ℕ) (max : ℕ) → (k : ℕ) × (truncate (encode_all rs) max ≡ encode_all (take k rs))
unfolding truncate
truncate-encode_all rs max = elim (Bool-cases (max == 0 || leb (length (encode_all rs)) max)) [
  | inl h ↦ (length rs, rw (h, take_all rs))
  | inr h ↦
      let (k, e) =
        cut_at_start rs (rune_start_before (encode_all rs) max)
          (ground (arith, rune_start_before-le (encode_all rs) max))
          (rune_start_before-IsCut (encode_all rs) max) in
      (k, rw h e)
]
