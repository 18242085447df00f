-- ===== src/Hub/Router/Accepts.antt =====
-- When `Route` gives a plan.
use talkeqidea.Common.{
  ℕ, ◌≡◌, ◌↔◌, inl, inr, true, false, List, some, Option-cases, arith, Text, ok,
}
use talkeqidea.Relay.Event.{Event, Renderer, validate}
use talkeqidea.Hub.Seen.{seen_before}
use talkeqidea.Config.Settings.{HubChannel}
use talkeqidea.Hub.Router.{Router, Plan, find_channel, plan_for, route_new, route}

-- What makes an event routable on a channel.
pub record IsRoutable (r : Router) (now : ℕ) (e : Event) (ch : HubChannel) : Type 0 where
  pub valid : validate e ≡ ok tt
  pub fresh : (seen_before r.seen now e.id).1 ≡ false
  pub first_hop : e.hop ≡ 0
  pub found : find_channel e.channel r.channels ≡ some ch
  pub enabled : ch.is_enabled ≡ true

module _ (execute : Renderer) (r : Router) (now : ℕ) (e : Event) (connected : List Text) where
  route_only_if :
      (plan : Plan)
      → (route execute r now e connected).1 ≡ ok plan
      → (ch : HubChannel) × IsRoutable r now e ch × (plan_for execute ch e connected ≡ ok plan)
  unfolding route route_new
  route_only_if plan h = elim (Option-cases (find_channel e.channel r.channels)) [
    | inl p ↦ ground arith
    | inr (ch, p) ↦ (ch, ground arith, ground arith)
  ]

  route_if :
      (plan : Plan) (ch : HubChannel)
      → IsRoutable r now e ch
      → plan_for execute ch e connected ≡ ok plan
      → (route execute r now e connected).1 ≡ ok plan
  unfolding route route_new
  route_if plan ch h p = ground arith

  -- There is a plan exactly when the event is valid, was not seen, was not relayed before, and names
  -- a channel that is there and enabled; the plan is then the one that is made for that channel.
  pub route-eq-ok_iff :
      (plan : Plan)
      → ((route execute r now e connected).1 ≡ ok plan)
        ↔ ((ch : HubChannel) × IsRoutable r now e ch × (plan_for execute ch e connected ≡ ok plan))
  route-eq-ok_iff plan = (route_only_if plan, λ h. route_if plan h.0 h.1 h.2)
