-- ===== src/Hub/Router/Targets.antt =====
-- Where a routed event goes.
use talkeqidea.Common.{
  holds, holds-cons, ℕ, ◌≡◌, ◌≢◌, ◌⊎◌, refl, Bool, not, ◌&&◌, ◌||◌, List, [], ◌∷◌, Option, some,
  arith, Text, ok, ok-injective, ap, sym, ◌∙◌, keep, text_eq, text_eq_iff,
}
use talkeqidea.Relay.Event.{Event, Renderer, origin_discord, render}
use talkeqidea.Config.Settings.{HubChannel}
use talkeqidea.Hub.Router.{
  Router, Plan, find_channel, deliver, discord_leg, target_keys, plan_for, route,
}
use talkeqidea.Hub.Router.Accepts.{route-eq-ok_iff}

-- Membership in the connected servers without the origin.
holds-others :
    (origin key : Text) (keys : List Text)
    → holds key (keep (λ k. not (text_eq k origin)) keys)
      ≡ (holds key keys && not (text_eq key origin))
unfolding holds
holds-others origin key [] = refl
holds-others origin key (k ∷ keys) = ground (
  arith,
  holds-others origin key keys,
  text_eq_iff k key,
  text_eq_iff k origin,
  text_eq_iff key origin,
  holds-cons key k (keep (λ j. not (text_eq j origin)) keys),
)

-- The servers that are sent an event of a channel.
abbrev pub is_reached : HubChannel → Event → List Text → Text → Bool
is_reached ch e connected key =
    (ch.is_cross_server || text_eq e.origin origin_discord)
    && (holds key connected && not (text_eq key e.origin))

holds-target_keys :
    (ch : HubChannel) (e : Event) (connected : List Text) (key : Text)
    → holds key (target_keys ch e connected) ≡ is_reached ch e connected key
unfolding target_keys holds
holds-target_keys ch e connected key = ground (arith, holds-others e.origin key connected)

plan_for-targets :
    (execute : Renderer) (ch : HubChannel) (e : Event) (connected : List Text) (plan : Plan)
    → plan_for execute ch e connected ≡ ok plan
    → plan.targets ≡ target_keys ch e connected
unfolding plan_for
plan_for-targets execute ch e connected plan h = ground arith

same_channel : {a b : HubChannel} (o : Option HubChannel) → o ≡ some a → o ≡ some b → a ≡ b
same_channel o p q = cc

-- A routed event reaches a server exactly when the server is connected, is not where the event came
-- from, and the channel links servers or the event came from Discord.
pub route_targets :
    (execute : Renderer) (r : Router) (now : ℕ) (e : Event) (connected : List Text) (plan : Plan)
    (ch : HubChannel) (key : Text)
    → (route execute r now e connected).1 ≡ ok plan
    → find_channel e.channel r.channels ≡ some ch
    → holds key plan.targets ≡ is_reached ch e connected key
route_targets execute r now e connected plan ch key h found =
    let (ch', routable, planned) = (route-eq-ok_iff execute r now e connected plan).0 h in
    let same : ch' ≡ ch = same_channel _ routable.found found in
    rw (plan_for-targets execute ch' e connected plan planned, same)
      (holds-target_keys ch e connected key)

discord_leg_from_discord :
    (execute : Renderer) (ch : HubChannel) (e : Event)
    → e.origin ≡ origin_discord
    → discord_leg execute ch e ≡ ok ([], [])
unfolding discord_leg
discord_leg_from_discord execute ch e h = ground (arith, text_eq_iff e.origin origin_discord)

plan_for-leg :
    (execute : Renderer) (ch : HubChannel) (e : Event) (connected : List Text) (plan : Plan)
    → plan_for execute ch e connected ≡ ok plan
    → discord_leg execute ch e ≡ ok (plan.discord_channel_id, plan.discord_message)
unfolding plan_for
plan_for-leg execute ch e connected plan h = ground arith

-- What the Discord leg of a plan may hold.
abbrev pub IsLeg : Renderer → HubChannel → Event → Plan → Type 0
IsLeg execute ch e plan =
    (plan.discord_channel_id ≡ [])
    ⊎ ((e.origin ≢ origin_discord)
        × (plan.discord_channel_id ≡ ch.discord_channel_id)
        × (render execute ch.discord_template e ch.discord_channel_id ≡ some plan.discord_message))

IsLeg-sound :
    (execute : Renderer) (ch : HubChannel) (e : Event) (plan : Plan)
    → discord_leg execute ch e ≡ ok (plan.discord_channel_id, plan.discord_message)
    → IsLeg execute ch e plan
unfolding discord_leg deliver
IsLeg-sound execute ch e plan h = ground (arith, text_eq_iff e.origin origin_discord)

-- A routed event goes to Discord only in its channel's own Discord channel and rendered by the
-- channel's template, and never if it came from Discord.
pub route_discord :
    (execute : Renderer) (r : Router) (now : ℕ) (e : Event) (connected : List Text) (plan : Plan)
    (ch : HubChannel)
    → (route execute r now e connected).1 ≡ ok plan
    → find_channel e.channel r.channels ≡ some ch
    → IsLeg execute ch e plan
route_discord execute r now e connected plan ch h found =
    let (ch', routable, planned) = (route-eq-ok_iff execute r now e connected plan).0 h in
    let same : ch' ≡ ch = same_channel _ routable.found found in
    IsLeg-sound execute ch e plan (rw (← same) (plan_for-leg execute ch' e connected plan planned))

-- What came from Discord goes to no Discord channel.
pub routed_from_discord :
    (execute : Renderer) (r : Router) (now : ℕ) (e : Event) (connected : List Text) (plan : Plan)
    → e.origin ≡ origin_discord
    → (route execute r now e connected).1 ≡ ok plan
    → plan.discord_channel_id ≡ []
routed_from_discord execute r now e connected plan from h =
    let (ch, routable, planned) = (route-eq-ok_iff execute r now e connected plan).0 h in
    let leg = plan_for-leg execute ch e connected plan planned in
    let nowhere = discord_leg_from_discord execute ch e from in
    let same : ([], []) ≡ (plan.discord_channel_id, plan.discord_message) =
      ok-injective (sym nowhere ∙ leg) in
    sym (ap (λ p. p.0) same)
