-- ===== src/Agent/Reconnect/Pin.antt =====
-- The hub that an agent accepts.
use talkeqidea.Common.{
  ℕ, ◌+◌, ◌≡◌, ◌↔◌, ◌⊎◌, inl, inr, refl, true, false, not, ◌||◌, ◌==◌, List, [], ◌∷◌, map, keep,
  arith, Text, text_eq_iff, any, All, ok,
}
use talkeqidea.Golang.Ascii.{IsAscii, runes_ascii, encode_all_ascii}
use talkeqidea.Golang.Utf8.{is_between}
use talkeqidea.Golang.Strings.{Unicode, LowersAscii, to_lower}
use talkeqidea.Agent.Reconnect.{Digests, pinned, digits, pin, tls_config, verify_peer}

-- With a pin an agent compares the digest with the digits of the fingerprint.
pub verify_peer_iff :
    (d : Digests) (u : Unicode) (fingerprint want cert : Text) (chain : List Text)
    → tls_config d u fingerprint ≡ ok (pinned want)
    → (verify_peer d want (cert ∷ chain) ≡ ok tt) ↔ (d.hex (d.sha256 cert) ≡ digits u fingerprint)
unfolding tls_config pin verify_peer
verify_peer_iff d u fingerprint want cert chain h =
    let same : digits u fingerprint ≡ want = ground arith in
    rw same (
      λ e. ground (arith, text_eq_iff (d.hex (d.sha256 cert)) want),
      λ e. ground (arith, text_eq_iff (d.hex (d.sha256 cert)) want),
    )

-- A hexadecimal digit in lower case, and a way to write it.
abbrev pub IsDigit : ℕ → ℕ → Type 0
IsDigit c d =
    (((is_between b'0' b'9' c || is_between b'a' b'f' c) ≡ true) × (d ≡ c))
    ⊎ ((is_between b'A' b'F' c ≡ true) × (d ≡ c + 32))

-- A text that writes hexadecimal digits: in either case, with colons anywhere.
pub data Writes : Text → Text → Type 0 where
  nothing : Writes [] []
  colon : (c : ℕ) (f h : Text) → c ≡ b':' → Writes f h → Writes (c ∷ f) h
  digit : (c d : ℕ) (f h : Text) → IsDigit c d → Writes f h → Writes (c ∷ f) (d ∷ h)

pub lower_digits-Writes :
    (s : Text)
    → any (λ c. not (is_between b'0' b'9' c || is_between b'a' b'f' c)) s ≡ false
    → Writes s s
lower_digits-Writes [] h = nothing
lower_digits-Writes (c ∷ s) h =
    digit c c s s (inl (ground arith, refl)) (lower_digits-Writes s (ground arith))

-- What is left of a fingerprint without its colons.
abbrev bare : Text → Text
bare f = keep (λ c. not (c == b':')) f

Writes-IsAscii :
    (u : Unicode) (f h : Text)
    → LowersAscii u
    → Writes f h
    → All IsAscii (bare f) × (map u.to_lower (bare f) ≡ h) × All IsAscii h
Writes-IsAscii u [] [] l nothing = (tt, refl, tt)
Writes-IsAscii u [] (d ∷ h) l w = elim w [ ]
Writes-IsAscii u (c ∷ f) h l (colon _ _ _ is_colon w) =
    let ih = Writes-IsAscii u f h l w in rw is_colon ih
Writes-IsAscii u (c ∷ f) (d ∷ h) l (digit _ _ _ _ (inl (low, same)) w) =
    let (a, b, e) = Writes-IsAscii u f h l w in
    let kept : (c == b':') ≡ false = ground arith in
    rw kept ((ground arith, a), ground (arith, l c), (ground arith, e))
Writes-IsAscii u (c ∷ f) (d ∷ h) l (digit _ _ _ _ (inr (high, same)) w) =
    let (a, b, e) = Writes-IsAscii u f h l w in
    let kept : (c == b':') ≡ false = ground arith in
    rw kept ((ground arith, a), ground (arith, l c), (ground arith, e))

digits-Writes : (u : Unicode) (f h : Text) → LowersAscii u → Writes f h → digits u f ≡ h
unfolding digits to_lower
digits-Writes u f h l w =
    let (a, b, e) = Writes-IsAscii u f h l w in
    rw (runes_ascii (bare f) a, b) (encode_all_ascii h e)

-- Where a fingerprint that is accepted as a pin writes the hexadecimal digits `h`, in either case
-- and with colons anywhere, and the library lowers ASCII letters as it says, the agent accepts
-- exactly the chains whose first certificate has the digest `h`, whoever signed it.
pub verify_peer-Writes :
    (d : Digests) (u : Unicode) (fingerprint h want cert : Text) (chain : List Text)
    → LowersAscii u
    → Writes fingerprint h
    → tls_config d u fingerprint ≡ ok (pinned want)
    → (verify_peer d want (cert ∷ chain) ≡ ok tt) ↔ (d.hex (d.sha256 cert) ≡ h)
verify_peer-Writes d u fingerprint h want cert chain l written pins =
    rw (← digits-Writes u fingerprint h l written)
      (verify_peer_iff d u fingerprint want cert chain pins)
