-- ===== src/Hub/Core.antt =====
-- hub/hub.go: the sessions of a hub and the publishing of an event. A frame is what `relay.NewFrame`
-- makes of an event, which may fail; what is sent to Discord is returned.
pub mod Delivery
pub mod Leaving
mod Tests
use talkeqidea.Common.{
  ℕ, map, suc, ◌+◌, ◌≡◌, Bool, true, false, not, List, [], ◌∷◌, Option, none, some, Text, is_empty,
  length, text_lt, if◌then◌else◌, TextMap, lookup, insert, erase, ◌==◌, Result, ok, err,
}
use talkeqidea.Golang.Strings.{Unicode}
use talkeqidea.Sanitize
use talkeqidea.Relay.Event.{Event, Renderer}
use talkeqidea.Hub.Store.{sort_slice, values}
use talkeqidea.Hub.Router.{Router, Plan, RouteError, is_empty_plan, route}
use talkeqidea.Hub.Session.{Session, send, close}

pub record Hub (F : Type 0) : Type 0 where
  pub router : Router
  pub sessions : TextMap (Session F)

pub record ServerStatus : Type 0 where
  pub server_key : Text
  pub short_name : Text
  pub player_count : ℕ
  pub is_source_up : Bool
  pub connected_at : ℕ
  pub dropped : ℕ

-- A `request.DiscordSend`: the channel and the message.
abbrev pub DiscordSend : Type 0
DiscordSend = Text × Text

unfoldable pub discord_sends : Plan → List DiscordSend
discord_sends p =
    if is_empty p.discord_channel_id then [] else (p.discord_channel_id, p.discord_message) ∷ []

-- What is published: cleaned on arrival.
unfoldable pub cleaned : Unicode → Event → Event
cleaned u e = record e { name = Sanitize.name e.name; message = Sanitize.message u e.message }

unfoldable pub relayed : Event → Event
relayed e = record e { hop = e.hop + 1 }

module _ {F : Type 0} where
  -- The session that was there is closed, and leaves the map.
  unfoldable pub add_session : Hub F → Session F → Hub F
  add_session h s = record h { sessions = insert s.server_key s h.sessions }

  -- Whether the session that stands under a key is this one.
  unfoldable pub is_same : Session F → Option (Session F) → Bool
  is_same s none = false
  is_same s (some current) = current.id == s.id

  unfoldable pub remove_session : Hub F → Session F → Hub F
  remove_session h s =
      if is_same s (lookup s.server_key h.sessions)
      then record h { sessions = erase s.server_key h.sessions }
      else h

  -- `Disconnect`, with the sessions that it closes.
  unfoldable pub disconnect : Hub F → Hub F × List (Session F)
  disconnect h = (record h { sessions = [] }, map close (values h.sessions))

  unfoldable pub session_count : Hub F → ℕ
  session_count h = length h.sessions

  unfoldable pub session_of : Hub F → Text → Option (Session F)
  session_of h key = lookup key h.sessions

  unfoldable pub keys : TextMap (Session F) → List Text
  keys [] = []
  keys ((key, s) ∷ m) = key ∷ keys m

  unfoldable pub connected_keys : Hub F → List Text
  connected_keys h = sort_slice text_lt (keys h.sessions)

  unfoldable pub total_players : TextMap (Session F) → ℕ
  total_players [] = 0
  total_players ((key, s) ∷ m) = s.player_count + total_players m

  unfoldable pub player_count : Hub F → ℕ
  player_count h = total_players h.sessions

  unfoldable pub statuses : TextMap (Session F) → List ServerStatus
  statuses [] = []
  statuses ((key, s) ∷ m) =
      record {
        server_key = s.server_key;
        short_name = s.short_name;
        player_count = s.player_count;
        is_source_up = s.source_up;
        connected_at = s.connected_at;
        dropped = s.dropped;
      }
      ∷ statuses m

  unfoldable pub connected_servers : Hub F → List ServerStatus
  connected_servers h = sort_slice (λ a b. text_lt a.server_key b.server_key) (statuses h.sessions)

  -- One round of the loop of `Publish` over the targets.
  unfoldable pub send_to : Text → F → TextMap (Session F) → Option (Session F) → TextMap (Session F)
  send_to key frame m none = m
  send_to key frame m (some s) = insert key (send s frame) m

  unfoldable pub fan_out : F → TextMap (Session F) → List Text → TextMap (Session F)
  fan_out frame m [] = m
  fan_out frame m (key ∷ rest) = fan_out frame (send_to key frame m (lookup key m)) rest

  unfoldable pub fan_out_encoded : Option F → TextMap (Session F) → List Text → TextMap (Session F)
  fan_out_encoded none m targets = m
  fan_out_encoded (some frame) m targets = fan_out frame m targets

module _ {F : Type 0} (u : Unicode) (execute : Renderer) (encode : Event → Option F) where
  -- What follows the routing.
  unfoldable pub carry_out :
      Event → TextMap (Session F) → Router × Result RouteError Plan → Hub F × List DiscordSend
  carry_out e m (r, err _) = (record { router = r; sessions = m }, [])
  carry_out e m (r, ok p) =
      if is_empty_plan p
      then (record { router = r; sessions = m }, [])
      else if is_empty p.targets
      then (record { router = r; sessions = m }, discord_sends p)
      else (
        record { router = r; sessions = fan_out_encoded (encode (relayed e)) m p.targets },
        discord_sends p,
      )

  unfoldable pub publish : Hub F → ℕ → Event → Hub F × List DiscordSend
  publish h now event =
      let e = cleaned u event in
      carry_out e h.sessions (route execute h.router now e (connected_keys h))

  -- The events that a session sends, `onFrame`; `is_within_rate` is the answer of its limiter.
  unfoldable pub on_event : Hub F → ℕ → Session F → Bool → Option Event → Hub F × List DiscordSend
  on_event h now s is_within_rate none = (h, [])
  on_event h now s is_within_rate (some e) =
      let published =
        publish h now (record e { origin = s.server_key; origin_name = s.short_name }) in
      if is_within_rate then published else (h, [])
