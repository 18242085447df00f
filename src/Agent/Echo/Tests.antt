-- ===== src/Agent/Echo/Tests.antt =====
-- A line that is injected and comes back.
use talkeqidea.Common.{◌+◌, ◌≡◌, false, codes, ltb}
use talkeqidea.Relay.Event.{Event}
use talkeqidea.Agent.Echo.{EchoCache, new_echo_cache, remember, is_echo}
use talkeqidea.Agent.Echo.Laws.{suppressed_once}

abbrev line : Event
line = record {
  id = codes "a1";
  origin = codes "server1";
  origin_name = codes "Vanilla";
  channel = codes "ooc";
  name = codes "Soandso";
  message = codes "hello";
  hop = 1;
  sent_at = 1000;
}

-- The cache after the line was injected once already.
abbrev injected : EchoCache
injected = remember (new_echo_cache 50) 3 line

suppressed_once_example :
    ((is_echo (remember injected 4 line) 6 (codes "Soandso") (codes "hello")).1
      ≡ ltb 6 (4 + injected.ttl))
    × ((is_echo
          (is_echo (remember injected 4 line) 6 (codes "Soandso") (codes "hello")).0
          7
          (codes "Soandso")
          (codes "hello")).1
        ≡ false)
suppressed_once_example = suppressed_once injected 4 6 7 line
