-- ===== src/Hub/Runs/Sound.antt =====
-- What every state that a hub can reach has in common.
use talkeqidea.Common.{ℕ, ◌≡◌, refl, List, [], some, Text, lookup}
use talkeqidea.Relay.Event.{FrameType}
use talkeqidea.Relay.Frame.{Frame, new_frame}
use talkeqidea.Hub.Session.{Session, take_head, close}
use talkeqidea.Hub.Core.{disconnect}
use talkeqidea.Hub.Admission.{Server}
use talkeqidea.Hub.Frames.{published, on_frame}
use talkeqidea.Hub.Control.{replace_channels}
use talkeqidea.Hub.Runs.{
  World, Step, arrived, received, received_late, written, closed, left, discord_said, tested,
  given_up, renamed, enabled_set, removed, agents_listed, code_created, code_revoked, codes_listed,
  roster_written, codes_written, disconnected, reloaded, Reach, here, next,
}
use talkeqidea.Hub.Runs.Kept.{
  IsKept, AreKept, lookup-AreKept, Grows-IsKept, take_head-Grows, remove_session-AreKept,
  publish-AreKept,
}
use talkeqidea.Hub.Runs.Arriving.{IsSound, handle_agent-IsSound}
use talkeqidea.Hub.Runs.Handling.{changed-IsSound, IsCurrent, on_frame_of-IsSound}
use talkeqidea.Hub.Runs.Operating.{
  rename_agent-IsSound, settle_channels-IsSound, test_agent-IsSound,
}

module _ {P : Type 0} where
  found-IsKept :
      (s : Server P) (key : Text) (x : Session Frame)
      → lookup key s.hub.sessions ≡ some x
      → IsSound s
      → IsKept s.queue_size s.next_id x.server_key x
  found-IsKept s key x e h =
      let k = lookup-AreKept s.queue_size s.next_id key x s.hub.sessions e h in
      record { keyed = refl; made = k.made; sized = k.sized; fits = k.fits }

take_head-IsKept :
    (q n : ℕ) (x : Session Frame) (out : List Frame)
    → x.out ≡ out
    → IsKept q n x.server_key x
    → IsKept q n (take_head x out).server_key (take_head x out)
take_head-IsKept q n x out e h =
    let k = Grows-IsKept q n x.server_key (take_head-Grows x out e) h in
    record { keyed = refl; made = k.made; sized = k.sized; fits = k.fits }

module _ (w : World) where
  open w use {netip, unicode, verify, codecs, enroll_json, execute, parses, parse, float}
  open netip use {Prefix}

  Step-IsSound : {s t : Server Prefix} → Step w s t → IsSound s → IsSound t
  unfolding on_frame published IsCurrent close replace_channels disconnect AreKept
  Step-IsSound {s} (arrived a) h = handle_agent-IsSound w s a h
  Step-IsSound {s} (received key x now within frame e) h =
      on_frame_of-IsSound unicode execute codecs frame.frame_type s now x within frame
        (λ here. found-IsKept s key x e h) h
  Step-IsSound {s} (received_late x now within frame e) h =
      on_frame_of-IsSound unicode execute codecs frame.frame_type s now x within frame
        (λ here. absurd (cc)) h
  Step-IsSound {s} (written key x e) h =
      changed-IsSound s (take_head x x.out)
        (λ here. take_head-IsKept s.queue_size s.next_id x x.out refl (found-IsKept s key x e h)) h
  Step-IsSound {s} (closed key x e) h =
      let k = found-IsKept s key x e h in
      changed-IsSound s (close x)
        (λ here. record { keyed = refl; made = k.made; sized = k.sized; fits = k.fits }) h
  Step-IsSound {s} (left x) h = remove_session-AreKept s.queue_size s.next_id s.hub x h
  Step-IsSound {s} (discord_said now e) h =
      publish-AreKept unicode execute (new_frame codecs.event FrameType.event) s.queue_size
        s.next_id s.hub now e h
  Step-IsSound {s} (tested raw with_echo id why) h =
      test_agent-IsSound unicode codecs s raw with_echo id why h
  Step-IsSound {s} (given_up id) h = h
  Step-IsSound {s} (renamed raw short_name o) h = rename_agent-IsSound unicode s raw short_name o h
  Step-IsSound {s} (enabled_set raw is_enabled o) h = h
  Step-IsSound {s} (removed raw o) h = h
  Step-IsSound {s} agents_listed h = h
  Step-IsSound {s} (code_created raw short_name ttl now o id made) h = h
  Step-IsSound {s} (code_revoked id o) h = h
  Step-IsSound {s} (codes_listed now) h = h
  Step-IsSound {s} (roster_written d) h = h
  Step-IsSound {s} (codes_written d) h = h
  Step-IsSound {s} disconnected h = tt
  Step-IsSound {s} (reloaded channels) h = settle_channels-IsSound s _ h

  -- In every state that a hub can reach from one with no sessions, in whatever order connections,
  -- frames, departures and disconnections come, operators test, rename, enable and remove agents,
  -- issue and revoke codes and replace channels, and other processes write the files of agents and
  -- codes, each session stands under its own key, is one of those made so far, and no more frames
  -- wait for it than the size of its queue.
  pub Reach-IsSound : (s t : Server Prefix) → s.hub.sessions ≡ [] → Reach w s t → IsSound t
  unfolding AreKept
  Reach-IsSound s t none_yet here = rw none_yet tt
  Reach-IsSound s t none_yet (next r step) = Step-IsSound step (Reach-IsSound s _ none_yet r)
