-- ===== src/Hub/Router/Tests.antt =====
-- A hub with a linked, a plain and a disabled channel, after hub/router_test.go.
use talkeqidea.Common.{
  holds, ◌≡◌, ◌↔◌, refl, true, false, List, [], ◌∷◌, some, arith, Text, codes, ok, err, text_eq,
}
use talkeqidea.Relay.Event.{Event, Renderer, validate, render}
use talkeqidea.Hub.Seen.{seen_before, record_id, rotate}
use talkeqidea.Config.Settings.{HubChannel}
use talkeqidea.Hub.Router.{
  Router, Plan, find_channel, deliver, discord_leg, target_keys, plan_for, route_new, route,
  duplicate, channel_disabled, no_channel, already_relayed,
}
use talkeqidea.Hub.Router.Accepts.{IsRoutable}
use talkeqidea.Hub.Router.Planned.{IsPlanned, route-IsPlanned}
use talkeqidea.Hub.Router.Replay.{Call, route_all, route_twice}
use talkeqidea.Hub.Router.Targets.{is_reached, route_targets}

abbrev pub ooc : HubChannel
ooc = record {
  name = codes "ooc";
  is_enabled = true;
  is_cross_server = true;
  discord_channel_id = codes "7";
  discord_pattern = codes "p";
  discord_template = some (codes "p");
}

abbrev auction : HubChannel
auction = record ooc { name = codes "auction"; is_enabled = false }

-- A renderer that prints the message.
abbrev pub plain : Renderer
plain pattern d = some d.message

abbrev pub hub : Router
hub = record {
  channels = ooc ∷ auction ∷ [];
  seen = record { window = 30; current = []; previous = []; rotate_at = 30 };
}

abbrev pub keys : List Text
keys = codes "s1" ∷ codes "s2" ∷ codes "s3" ∷ []

abbrev pub hello : Event
hello = record {
  id = codes "a";
  origin = codes "s2";
  origin_name = codes "Vanilla";
  channel = codes "ooc";
  name = codes "Soandso";
  message = codes "hi";
  hop = 0;
  sent_at = 0;
}

abbrev hello_plan : Plan
hello_plan = record {
  discord_channel_id = codes "7";
  discord_message = codes "hi";
  targets = codes "s1" ∷ codes "s3" ∷ [];
}

hello_routed : (route plain hub 5 hello keys).1 ≡ ok hello_plan
unfolding route route_new validate find_channel plan_for discord_leg deliver target_keys render
    text_eq seen_before record_id rotate holds
hello_routed = refl

relayed_refused : (route plain hub 5 (record hello { hop = 1 }) keys).1 ≡ err (already_relayed 1)
unfolding route route_new validate seen_before record_id rotate holds
relayed_refused = refl

disabled_refused :
    (route plain hub 5 (record hello { channel = codes "auction" }) keys).1 ≡ err channel_disabled
unfolding route route_new validate find_channel text_eq seen_before record_id rotate holds
disabled_refused = refl

unknown_refused :
    (route plain hub 5 (record hello { channel = codes "gu" }) keys).1
    ≡ err (no_channel (codes "gu"))
unfolding route route_new validate find_channel text_eq seen_before record_id rotate holds
unknown_refused = refl

ooc_found : find_channel hello.channel hub.channels ≡ some ooc
unfolding find_channel text_eq
ooc_found = refl

route-IsPlanned_example :
    ((route plain hub 5 hello keys).1 ≡ ok hello_plan)
    ↔ ((ch : HubChannel) × IsRoutable hub 5 hello ch × IsPlanned ch hello plain keys hello_plan)
route-IsPlanned_example = route-IsPlanned plain hub 5 hello keys hello_plan

route_targets_example :
    holds (codes "s1") hello_plan.targets ≡ is_reached ooc hello keys (codes "s1")
route_targets_example =
    route_targets plain hub 5 hello keys hello_plan ooc (codes "s1") hello_routed ooc_found

abbrev between : List Call
between = (20, record hello { id = codes "b" }, keys) ∷ []

route_twice_example :
    (route plain (route_all plain (route plain hub 5 hello keys).0 between) 34 hello keys).1
    ≡ err duplicate
unfolding validate seen_before record_id rotate holds
route_twice_example =
    route_twice plain hub 5 hello keys between 34 hello keys refl (cc) refl (omega arith)
      (omega arith) (omega arith) refl refl
