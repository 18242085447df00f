-- ===== src/Hub/Probes/Tests.antt =====
-- Two probes wait, and are answered in the other order.
use talkeqidea.Common.{◌≡◌, refl, true, false, [], ◌∷◌, none, some, codes, text_eq}
use talkeqidea.Relay.Frame.{ProbeReply}
use talkeqidea.Hub.Probes.{PendingTests, new_pending_tests, add, deliver}
use talkeqidea.Hub.Probes.Once.{deliver_all, first_reply_only}

abbrev earlier : PendingTests
earlier = (add new_pending_tests (codes "a")).0

abbrev to_a : ProbeReply
to_a = record {
  id = codes "a";
  source_up = true;
  player_count = 3;
  version = [];
  injected_ok = false;
  detail = [];
}

abbrev to_b : ProbeReply
to_b = record to_a { id = codes "b" }

first_reply_only_example :
    ((deliver (deliver_all (add earlier (codes "b")).0 (to_a ∷ [])) to_b).1
      ≡ some ((add earlier (codes "b")).1, to_b))
    × ((deliver (deliver (deliver_all (add earlier (codes "b")).0 (to_a ∷ [])) to_b).0 to_b).1
        ≡ none)
unfolding text_eq
first_reply_only_example = first_reply_only earlier (to_a ∷ []) to_b to_b (refl, tt) refl
