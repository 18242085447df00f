-- ===== src/Hub/Router.antt =====
-- Router.Route of hub/router.go, with the routing table of config/config_relay.go.
pub mod Targets
pub mod Accepts
pub mod Planned
pub mod Replay
mod Tests
use talkeqidea.Common.{
  is_empty, ℕ, ◌+◌, ◌≡◌, Bool, true, false, not, ◌&&◌, ◌||◌, List, [], ◌∷◌, Option, none, some,
  Text, ltb, keep, text_eq, if◌then◌else◌, Result, ok, err, refuse_if, or_refuse, ◌>>=◌, ◌>>◌,
}
use talkeqidea.Config.Settings.{HubChannel}
use talkeqidea.Relay.Event.{Event, EventError, Renderer, validate, render, origin_discord}
use talkeqidea.Hub.Seen.{SeenCache, new_seen_cache, seen_before}

pub record Router : Type 0 where
  pub channels : List HubChannel
  pub seen : SeenCache

pub record Plan : Type 0 where
  pub discord_channel_id : Text
  pub discord_message : Text
  pub targets : List Text

unfoldable pub is_empty_plan : Plan → Bool
is_empty_plan p = is_empty p.discord_channel_id && is_empty p.targets

pub data RouteError : Type 0 where
  invalid : EventError → RouteError
  duplicate : RouteError
  already_relayed : ℕ → RouteError
  no_channel : Text → RouteError
  channel_disabled : RouteError
  render_failed : Text → RouteError

-- `IsDuplicate` and `IsChannelDisabled`.
unfoldable pub is_duplicate : RouteError → Bool
is_duplicate duplicate = true
is_duplicate _ = false

unfoldable pub is_channel_disabled : RouteError → Bool
is_channel_disabled channel_disabled = true
is_channel_disabled _ = false

-- 30 seconds.
abbrev pub seen_window : ℕ
seen_window = 30000000000

unfoldable pub new_router : List HubChannel → ℕ → Router
new_router channels now = record { channels = channels; seen = new_seen_cache seen_window now }

unfoldable pub set_channels : Router → List HubChannel → Router
set_channels r channels = record r { channels = channels }

unfoldable pub find_channel : Text → List HubChannel → Option HubChannel
find_channel name [] = none
find_channel name (ch ∷ rest) = if text_eq ch.name name then some ch else find_channel name rest

-- The channel identifier and the text for Discord; an empty rendering is not sent.
unfoldable pub deliver : HubChannel → Option Text → Result RouteError (Text × Text)
deliver ch none = err (render_failed ch.name)
deliver ch (some msg) = if is_empty msg then ok ([], []) else ok (ch.discord_channel_id, msg)

-- The Discord leg of the plan.
unfoldable pub discord_leg : Renderer → HubChannel → Event → Result RouteError (Text × Text)
discord_leg execute ch e =
    if not (is_empty ch.discord_channel_id) && not (text_eq e.origin origin_discord)
    then deliver ch (render execute ch.discord_template e ch.discord_channel_id)
    else ok ([], [])

-- The servers that the event is forwarded to.
unfoldable pub target_keys : HubChannel → Event → List Text → List Text
target_keys ch e connected =
    if ch.is_cross_server || text_eq e.origin origin_discord
    then keep (λ key. not (text_eq key e.origin)) connected
    else []

unfoldable pub plan_for : Renderer → HubChannel → Event → List Text → Result RouteError Plan
plan_for execute ch e connected = do
  leg ← discord_leg execute ch e
  ok (record {
    discord_channel_id = leg.0;
    discord_message = leg.1;
    targets = target_keys ch e connected;
  })

-- What follows the test for a duplicate.
unfoldable pub route_new : Renderer → List HubChannel → Event → List Text → Result RouteError Plan
route_new execute channels e connected = do
  refuse_if (ltb 0 e.hop) (already_relayed e.hop)
  ch ← or_refuse (find_channel e.channel channels) (no_channel e.channel)
  refuse_if (not ch.is_enabled) channel_disabled
  plan_for execute ch e connected

unfoldable pub route_fresh :
    Renderer → Router → Event → List Text → SeenCache × Bool → Router × Result RouteError Plan
route_fresh execute r e connected (seen, was_seen) = (
  record r { seen = seen },
  if was_seen then err duplicate else route_new execute r.channels e connected,
)

unfoldable pub route_valid :
    Renderer
    → Router
    → ℕ
    → Event
    → List Text
    → Result EventError (Unit {0})
    → Router × Result RouteError Plan
route_valid execute r now e connected (err why) = (r, err (invalid why))
route_valid execute r now e connected (ok _) =
    route_fresh execute r e connected (seen_before r.seen now e.id)

-- The cache is written as soon as the event is valid, whatever becomes of the event.
unfoldable pub route : Renderer → Router → ℕ → Event → List Text → Router × Result RouteError Plan
unfolding route_valid route_fresh
route execute r now e connected = route_valid execute r now e connected (validate e)
