-- ===== src/Config/Relay/Channels.antt =====
-- The channels of a hub once they are verified.
use talkeqidea.Common.{
  ◌≡◌, refl, sym, ap, Bool, true, false, not, List, [], ◌∷◌, Option, some, arith, Text, holds,
  is_empty, Result, ok, >>=-eq-ok, refuse_if-eq-ok, ok-injective,
}
use talkeqidea.Golang.Strings.{Unicode, LowersAscii}
use talkeqidea.Sanitize.{server_key}
use talkeqidea.Sanitize.Names.{server_key_idem}
use talkeqidea.Config.Settings.{HubChannel}
use talkeqidea.Config.Relay.{
  ConfigError, default_to, default_pattern, verify_channel, verify_channels,
}

module _ (u : Unicode) (parses : Text → Bool) where
  -- A channel after some names.
  pub record IsUsable (seen : List Text) (ch : HubChannel) : Type 0 where
    pub named : is_empty ch.name ≡ false
    pub clean : server_key u ch.name ≡ ch.name
    pub fresh : holds ch.name seen ≡ false
    pub patterned : is_empty ch.discord_pattern ≡ false
    pub parsed : ch.discord_template ≡ some ch.discord_pattern
    pub parses_it : parses ch.discord_pattern ≡ true

  -- Every channel of a list is usable after the names of those before it.
  unfoldable pub AreUsable : List Text → List HubChannel → Type 0
  AreUsable seen [] = Unit
  AreUsable seen (ch ∷ rest) = IsUsable seen ch × AreUsable (ch.name ∷ seen) rest

  default_to_present : (d s : Text) → is_empty d ≡ false → is_empty (default_to d s) ≡ false
  default_to_present d s h = ground arith

  verify_channel-IsUsable :
      LowersAscii u
      → (seen : List Text) (ch ch' : HubChannel) → verify_channel u parses seen ch ≡ ok ch'
      → IsUsable seen ch'
  unfolding verify_channel
  verify_channel-IsUsable lowers seen ch ch' h =
      let name = server_key u ch.name in
      let pattern = default_to default_pattern ch.discord_pattern in
      let (named, h1) = refuse_if-eq-ok (is_empty name) _ _ h in
      let (fresh, h2) = refuse_if-eq-ok (holds name seen) _ _ h1 in
      let (readable, h3) = refuse_if-eq-ok (not (parses pattern)) _ _ h2 in
      let made : record ch {
        name = name;
        discord_pattern = pattern;
        discord_template = some pattern;
      }
          ≡ ch' =
        ok-injective h3 in
      rw (← made) (record {
        named = named;
        clean = server_key_idem u ch.name lowers;
        fresh = fresh;
        patterned = default_to_present default_pattern ch.discord_pattern refl;
        parsed = refl;
        parses_it = ground arith;
      })

  -- Of a list of channels that is accepted every channel has a clean name that none before it has,
  -- and a pattern with its template, where the library lowers ASCII letters as documented.
  pub verify_channels-AreUsable :
      LowersAscii u
      → (seen : List Text) (chs out : List HubChannel) → verify_channels u parses seen chs ≡ ok out
      → AreUsable seen out
  unfolding verify_channels AreUsable
  verify_channels-AreUsable lowers seen [] [] h = tt
  verify_channels-AreUsable lowers seen [] (x ∷ out) h = absurd (cc)
  verify_channels-AreUsable lowers seen (ch ∷ rest) out h =
      let (ch', h1, made) = >>=-eq-ok _ (verify_channel u parses seen ch) h in
      let (rest', h2, later) = >>=-eq-ok _ (verify_channels u parses (ch'.name ∷ seen) rest) h1 in
      rw (← ok-injective h2) (
        verify_channel-IsUsable lowers seen ch ch' made,
        verify_channels-AreUsable lowers (ch'.name ∷ seen) rest rest' later,
      )

  verify_channel_again :
      (seen : List Text) (ch : HubChannel)
      → IsUsable seen ch
      → verify_channel u parses seen ch ≡ ok ch
  unfolding verify_channel
  verify_channel_again seen ch h =
      rw (h.clean, h.named, h.fresh, h.patterned, h.parses_it)
        (ap
          (λ (t : Option Text).
            let r : Result ConfigError HubChannel = ok (record ch { discord_template = t }) in r)
          (sym h.parsed))

  verify_channels_again :
      (seen : List Text) (chs : List HubChannel)
      → AreUsable seen chs
      → verify_channels u parses seen chs ≡ ok chs
  unfolding verify_channels AreUsable
  verify_channels_again seen [] h = refl
  verify_channels_again seen (ch ∷ rest) (h, hs) =
      rw (verify_channel_again seen ch h, verify_channels_again (ch.name ∷ seen) rest hs) refl

  -- Channels that were accepted are accepted again, and unchanged.
  pub verify_channels_idem :
      LowersAscii u
      → (chs out : List HubChannel) → verify_channels u parses [] chs ≡ ok out
      → verify_channels u parses [] out ≡ ok out
  verify_channels_idem lowers chs out h =
      verify_channels_again [] out (verify_channels-AreUsable lowers [] chs out h)
