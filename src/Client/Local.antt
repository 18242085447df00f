-- ===== src/Client/Local.antt =====
-- What the endpoints of one instance hand to each other: client/client.go.
use talkeqidea.Common.{
  ℕ, ◌≡◌, Bool, true, false, List, [], ◌∷◌, Option, Text, is_empty, text_eq, Result, ok, err,
  if◌then◌else◌, refl,
}
use talkeqidea.Golang.Strings.{Unicode}
use talkeqidea.Relay.Event.{Event, Renderer, origin_discord}
use talkeqidea.Hub.Router.{Router, Plan, RouteError, route, is_empty_plan}
use talkeqidea.Hub.Router.Targets.{routed_from_discord}
use talkeqidea.Hub.Session.{Session}
use talkeqidea.Hub.Core.{Hub, cleaned, discord_sends, carry_out, connected_keys}
use talkeqidea.Hub.Core
use talkeqidea.Agent.Link
use talkeqidea.Agent.Link.{Agent}
use talkeqidea.Common.{TextMap}
use talkeqidea.Requests.{relay_publish}
use talkeqidea.Client.{
  Client, World, Side, standalone, as_hub, as_agent, local_event, local_relay_identity,
  source_discord, post_all, published, with_discord, queued, publish_at, on_relay_publish,
  on_message,
}

nothing-if :
    {A B : Type 0} (b : Bool) (x y : A × List B) → x.1 ≡ [] → y.1 ≡ [] → (if b then x else y).1 ≡ []
nothing-if true x y hx hy = hx
nothing-if false x y hx hy = hy

module _ {F : Type 0} (u : Unicode) (execute : Renderer) (encode : Event → Option F) where
  discord_sends_none : (p : Plan) → p.discord_channel_id ≡ [] → discord_sends p ≡ []
  unfolding discord_sends
  discord_sends_none p h = rw h

  carry_out_from_discord :
      (e : Event) (m : TextMap (Session F)) (routed : Router × Result RouteError Plan)
      → ((plan : Plan) → routed.1 ≡ ok plan → plan.discord_channel_id ≡ [])
      → (carry_out u execute encode e m routed).1 ≡ []
  unfolding carry_out
  carry_out_from_discord e m (r, err why) h = refl
  carry_out_from_discord e m (r, ok p) h =
      let none_sent = discord_sends_none p (h p refl) in
      nothing-if (is_empty_plan p) _ _ refl
        (nothing-if (is_empty p.targets) _ _ none_sent none_sent)

  publish_from_discord :
      (h : Hub F) (now : ℕ) (e : Event)
      → e.origin ≡ origin_discord
      → (Core.publish u execute encode h now e).1 ≡ []
  unfolding Core.publish cleaned
  publish_from_discord h now e from =
      carry_out_from_discord (cleaned u e) h.sessions
        (route execute h.router now (cleaned u e) (connected_keys h))
        (λ plan made.
          routed_from_discord execute h.router now (cleaned u e) (connected_keys h) plan from made)

module _ {F N : Type 0} (w : World F) where
  published_nothing :
      (c : Client F N) (made : Hub F × List (Text × Text))
      → made.1 ≡ []
      → (published w c made).1 ≡ []
  unfolding published post_all with_discord
  published_nothing c (h, []) made = refl
  published_nothing c (h, x ∷ rest) made = absurd (cc)

  queued_nothing : (c : Client F N) (made : Agent × Bool) → (queued w c made).1 ≡ []
  unfolding queued
  queued_nothing c (a, is_queued) = refl

  publish_at_nothing :
      (c : Client F N) (side : Side F) (new_id : Text) (now : ℕ) (channel name message : Text)
      → (publish_at w c side new_id now source_discord channel name message).1 ≡ []
  unfolding publish_at local_event local_relay_identity text_eq
  publish_at_nothing c standalone new_id now channel name message = refl
  publish_at_nothing c (as_hub h) new_id now channel name message =
      let e = local_event c.config.relay.hub new_id now source_discord channel name message in
      published_nothing c (Core.publish w.unicode w.execute w.encode h now e)
        (publish_from_discord w.unicode w.execute w.encode h now e refl)
  publish_at_nothing c (as_agent a) new_id now channel name message =
      queued_nothing c (Link.publish w.codecs w.unicode a new_id now channel name message)

  -- A message from Discord that is relayed is not posted to Discord, and nothing is typed on the
  -- console for it, on a hub, on an agent and on neither.
  pub relayed_not_echoed :
      (c : Client F N) (new_id : Text) (now : ℕ) (channel name message : Text)
      → (on_message w c new_id now (relay_publish source_discord channel name message)).1 ≡ []
  unfolding on_message on_relay_publish
  relayed_not_echoed c new_id now channel name message =
      publish_at_nothing c c.side new_id now channel name message
