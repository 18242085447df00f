-- ===== src/Relay/Event/Tests.antt =====
-- Events at the bounds.
use talkeqidea.Common.{◌≡◌, refl, [], codes, err}
use talkeqidea.Relay.Event.{Event, validate, channel_empty, hop_limit}

abbrev pub greeting : Event
greeting = record {
  id = codes "a1";
  origin = codes "server1";
  origin_name = codes "Vanilla";
  channel = codes "ooc";
  name = codes "Soandso";
  message = codes "hello";
  hop = 0;
  sent_at = 1000;
}

no_channel_refused : validate (record greeting { channel = [] }) ≡ err channel_empty
unfolding validate
no_channel_refused = refl

fifth_hop_refused : validate (record greeting { hop = 5 }) ≡ err (hop_limit 5)
unfolding validate
fifth_hop_refused = refl
