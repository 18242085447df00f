-- ===== src/Hub/Core/Tests.antt =====
-- A hub with two sessions.
use mathlib.Core.Option
use talkeqidea.Common.{
  ◌≡◌, refl, true, [], ◌∷◌, none, some, codes, holds, text_lt, text_eq, lookup, ok,
}
use talkeqidea.Golang.Tables.{ascii_tables}
use talkeqidea.Relay.Event.{Event, Renderer, validate}
use talkeqidea.Sanitize
use talkeqidea.Hub.Seen.{new_seen_cache, seen_before, record_id, rotate}
use talkeqidea.Hub.Store.{sort_slice, insert_sorted}
use talkeqidea.Config.Settings.{HubChannel}
use talkeqidea.Hub.Router.{
  Plan, new_router, route, find_channel, deliver, discord_leg, target_keys, plan_for, route_new,
}
use talkeqidea.Hub.Session.{Session, new_session}
use talkeqidea.Hub.Core.Leaving.{reconnected_stays}
use talkeqidea.Hub.Core.{
  Hub, add_session, remove_session, session_of, on_event, publish, cleaned, relayed, connected_keys,
  keys,
}
use talkeqidea.Hub.Core.Delivery.{send_each, on_event-sender, publish-delivers}

abbrev linked : HubChannel
linked = record {
  name = codes "ooc";
  is_enabled = true;
  is_cross_server = true;
  discord_channel_id = [];
  discord_pattern = [];
  discord_template = none;
}

abbrev plain : Renderer
plain pattern d = some d.message

abbrev east : Session Event
east = new_session 0 (codes "east") (codes "East") 2 0

abbrev west : Session Event
west = new_session 1 (codes "west") (codes "West") 2 0

abbrev hub : Hub Event
hub = record {
  router = new_router (linked ∷ []) 0;
  sessions = (codes "east", east) ∷ (codes "west", west) ∷ [];
}

abbrev hello : Event
hello = record {
  id = codes "a";
  origin = codes "east";
  origin_name = codes "East";
  channel = codes "ooc";
  name = codes "Soandso";
  message = codes "hi";
  hop = 0;
  sent_at = 0;
}

abbrev hello_plan : Plan
hello_plan = record { discord_channel_id = []; discord_message = []; targets = codes "west" ∷ [] }

hello_routed :
    (route plain hub.router 5 (cleaned ascii_tables hello) (connected_keys hub)).1 ≡ ok hello_plan
unfolding route validate cleaned connected_keys keys sort_slice insert_sorted new_router
    new_seen_cache seen_before record_id rotate find_channel deliver discord_leg target_keys
    plan_for route_new text_eq lookup Sanitize.name Sanitize.message holds text_lt
hello_routed = refl

on_event-sender_example :
    lookup
      (codes "east")
      (on_event ascii_tables plain some hub 5 east true
        (some (record hello { origin = codes "west" }))).0.sessions
    ≡ lookup (codes "east") hub.sessions
unfolding new_session
on_event-sender_example =
    on_event-sender ascii_tables plain some hub 5 east true
      (some (record hello { origin = codes "west" }))

publish-delivers_example :
    lookup (codes "west") (publish ascii_tables plain some hub 5 hello).0.sessions
    ≡ Option.map
        (send_each (relayed (cleaned ascii_tables hello)) (codes "west") hello_plan.targets)
        (lookup (codes "west") hub.sessions)
publish-delivers_example =
    publish-delivers ascii_tables plain some hub 5 hello hello_plan
      (relayed (cleaned ascii_tables hello)) (codes "west") hello_routed refl

reconnected_stays_example :
    (remove_session (add_session hub (record east { id = 7 })) east
      ≡ add_session hub (record east { id = 7 }))
    × (session_of
          (remove_session (add_session hub (record east { id = 7 })) (record east { id = 7 }))
          (codes "east")
        ≡ none)
unfolding new_session
reconnected_stays_example = reconnected_stays hub east (record east { id = 7 }) refl refl
