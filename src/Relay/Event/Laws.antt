-- ===== src/Relay/Event/Laws.antt =====
-- What `Validate` accepts, and the keys that `EchoKey` makes.
use talkeqidea.Common.{ℕ, ◌≤◌, ◌≡◌, ◌≢◌, ◌↔◌, [], ◌∷◌, ◌++◌, arith, Text, All, All-imp, length, ok}
use talkeqidea.Relay.Event.{Event, echo_key, validate}
use talkeqidea.Sanitize.{is_name_rune}
use talkeqidea.Sanitize.Names.{IsNameByte}

-- The bounds on an event of a peer.
pub record IsBounded (e : Event) : Type 0 where
  pub channel_present : e.channel ≢ []
  pub channel_short : length e.channel ≤ 64
  pub name_present : e.name ≢ []
  pub name_short : length e.name ≤ 64
  pub message_present : e.message ≢ []
  pub message_short : length e.message ≤ 4000
  pub hop_low : e.hop ≤ 4

-- An event is accepted exactly when its channel, name and message are there and within 64, 64 and
-- 4000 bytes, and it was relayed at most 4 times.
pub validate_iff : (e : Event) → (validate e ≡ ok tt) ↔ IsBounded e
unfolding validate
validate_iff e = (λ h. ground arith, λ h. ground arith)

pub split_at_nul :
    (a b m n : Text)
    → All (λ c. c ≢ 0) a
    → All (λ c. c ≢ 0) b
    → a ++ 0 ∷ m ≡ b ++ 0 ∷ n
    → (a ≡ b) × (m ≡ n)
split_at_nul [] [] m n ha hb e = ground arith
split_at_nul [] (y ∷ b) m n ha (hy, hb) e = ground arith
split_at_nul (x ∷ a) [] m n (hx, ha) hb e = ground arith
split_at_nul (x ∷ a) (y ∷ b) m n (hx, ha) (hy, hb) e = ground (arith, split_at_nul a b m n ha hb)

pub name_byte_ne_zero : (c : ℕ) → IsNameByte c → c ≢ 0
unfolding is_name_rune
name_byte_ne_zero c h = ground arith

-- Two events whose names hold only bytes of a sanitized name have one echo key only if both the
-- names and the messages agree.
pub echo_key_injective :
    (e f : Event)
    → All IsNameByte e.name
    → All IsNameByte f.name
    → echo_key e ≡ echo_key f
    → (e.name ≡ f.name) × (e.message ≡ f.message)
unfolding echo_key
echo_key_injective e f p q h =
    split_at_nul e.name f.name e.message f.message
      (All-imp IsNameByte (λ c. c ≢ 0) e.name name_byte_ne_zero p)
      (All-imp IsNameByte (λ c. c ≢ 0) f.name name_byte_ne_zero q) h
