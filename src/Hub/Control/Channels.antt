-- ===== src/Hub/Control/Channels.antt =====
-- New channels for a hub that runs.
use talkeqidea.Common.{
  ◌≡◌, ◌⊎◌, inl, inr, refl, ap, ◌∙◌, Bool, List, [], Text, codes, Result, ok, err, >>=-eq-ok,
  ok-injective, text_eq,
}
use talkeqidea.Golang.Strings.{Unicode, LowersAscii}
use talkeqidea.Relay.JoinCode.{JoinCode, JoinCodeError}
use talkeqidea.Config.Settings.{HubChannel, Float, RelayConfig}
use talkeqidea.Config.Relay.{ConfigError, verify, verify_mode, verify_hub}
use talkeqidea.Config.Relay.Channels.{AreUsable}
use talkeqidea.Config.Relay.Hub.{verify_hub-IsReady}
use talkeqidea.Hub.Router.{set_channels}
use talkeqidea.Hub.Admission.{Server}
use talkeqidea.Hub.Control.{candidate, no_agent, settle_channels, replace_channels}

module _ (u : Unicode) (parses : Text → Bool) (parse : Text → Result JoinCodeError JoinCode)
    (f : Float) where
  abbrev as_hub : List HubChannel → RelayConfig f.F
  as_hub channels = record { mode = codes "hub"; hub = candidate f channels; agent = no_agent }

  verify-as_hub :
      (channels : List HubChannel) (d : RelayConfig f.F)
      → verify u parses f parse (as_hub channels) ≡ ok d
      → verify_hub u parses f (candidate f channels) ≡ ok d.hub
  unfolding verify verify_mode text_eq
  verify-as_hub channels d h =
      let (hub, h1, verified) = >>=-eq-ok _ (verify_hub u parses f (candidate f channels)) h in
      let same : record (as_hub channels) { hub = hub } ≡ d = ok-injective h1 in
      verified ∙ ap (λ (c : RelayConfig f.F). ok c.hub) same

  settle_channels_lem :
      {P : Type 0} (lowers : LowersAscii u) (s : Server P) (channels : List HubChannel)
      (x : Result ConfigError (RelayConfig f.F))
      → verify u parses f parse (as_hub channels) ≡ x
      → let t = settle_channels s x in
        ((e : ConfigError) × (t ≡ (s, err e)))
        ⊎ ((t.1 ≡ ok tt)
            × AreUsable u parses [] t.0.hub.router.channels
            × (t.0 ≡ record s { hub = record s.hub { router = t.0.hub.router } })
            × (t.0.hub.router.seen ≡ s.hub.router.seen))
  unfolding settle_channels set_channels
  settle_channels_lem lowers s channels (err e) h = inl (e, refl)
  settle_channels_lem lowers s channels (ok d) h =
      let ready = verify_hub-IsReady f u parses lowers (candidate f channels) d.hub in
      inr (refl, (ready (verify-as_hub channels d h)).usable, refl, refl)

  -- New channels that are refused change nothing of a running hub. Those that are accepted are
  -- all usable (named, with no name twice, each with a pattern that was parsed), and nothing but
  -- the channels changes: what was seen is still known, where the library lowers ASCII letters as
  -- documented.
  pub replace_channels_lem :
      {P : Type 0} (lowers : LowersAscii u) (s : Server P) (channels : List HubChannel)
      → let t = replace_channels u parses parse f s channels in
        ((e : ConfigError) × (t ≡ (s, err e)))
        ⊎ ((t.1 ≡ ok tt)
            × AreUsable u parses [] t.0.hub.router.channels
            × (t.0 ≡ record s { hub = record s.hub { router = t.0.hub.router } })
            × (t.0.hub.router.seen ≡ s.hub.router.seen))
  unfolding replace_channels
  replace_channels_lem lowers s channels =
      settle_channels_lem lowers s channels (verify u parses f parse (as_hub channels)) refl
