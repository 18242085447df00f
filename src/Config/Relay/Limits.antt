-- ===== src/Config/Relay/Limits.antt =====
-- The limits of a hub, read, saved and read again.
use talkeqidea.Common.{ℕ, ◌≡◌, refl, pos, negsuc}
use talkeqidea.Config.Settings.{Float, HubLimits}
use talkeqidea.Config.Relay.{limit_or, apply_defaults}

module _ (f : Float) (c : HubLimits f.F) where
  -- A limit that was switched off by a negative value is off after the defaults were applied, and at
  -- its default again after they were applied a second time.
  pub switched_off_again :
      (agents connections failures : ℕ)
      → c.max_agents ≡ negsuc agents
      → c.connections_per_minute ≡ negsuc connections
      → c.auth_failures_before_ban ≡ negsuc failures
      → ((apply_defaults f c).max_agents ≡ pos 0)
        × ((apply_defaults f c).connections_per_minute ≡ pos 0)
        × ((apply_defaults f c).auth_failures_before_ban ≡ pos 0)
        × ((apply_defaults f (apply_defaults f c)).max_agents ≡ pos 64)
        × ((apply_defaults f (apply_defaults f c)).connections_per_minute ≡ pos 30)
        × ((apply_defaults f (apply_defaults f c)).auth_failures_before_ban ≡ pos 5)
  unfolding apply_defaults limit_or
  switched_off_again agents connections failures a b d =
      rw (a, b, d) (refl, refl, refl, refl, refl, refl)
