-- ===== src/Hub/Runs/Operating.antt =====
-- What an operator does.
use talkeqidea.Common.{
  ◌≡◌, inl, inr, refl, Bool, true, Bool-cases, Option, none, some, Text, codes, is_empty, lookup,
  insert, Result, ok, err,
}
use talkeqidea.Golang.Strings.{Unicode}
use talkeqidea.Sanitize.{server_key, telnet_line}
use talkeqidea.Relay.Event.{FrameType}
use talkeqidea.Relay.Frame.{Frame, Json, Codecs, Probe, new_frame}
use talkeqidea.Config.Relay.{ConfigError}
use talkeqidea.Config.Settings.{RelayConfig}
use talkeqidea.Hub.Store.{SaveOutcome}
use talkeqidea.Hub.Roster.{Roster, RosterError, entry, rename}
use talkeqidea.Hub.Session.{Session, send}
use talkeqidea.Hub.Core.{session_of}
use talkeqidea.Hub.Probes.{
  PendingTests, TestResult, begin_test, probe_session, probe_framed, send_session, first_result,
}
use talkeqidea.Hub.Admission.{Server}
use talkeqidea.Hub.Control.{rename_session, settle_rename, rename_agent, settle_channels}
use talkeqidea.Hub.Runs.{test_agent}
use talkeqidea.Hub.Runs.Kept.{
  IsKept, AreKept, insert-AreKept, lookup-AreKept, Grows-IsKept, send-Grows,
}
use talkeqidea.Hub.Runs.Arriving.{IsSound}

module _ {P : Type 0} where
  put-IsSound :
      (s : Server P) (key : Text) (x y : Session Frame)
      → lookup key s.hub.sessions ≡ some x
      → (IsKept s.queue_size s.next_id key x → IsKept s.queue_size s.next_id key y)
      → IsSound s
      → AreKept s.queue_size s.next_id (insert key y s.hub.sessions)
  put-IsSound s key x y e keep k =
      insert-AreKept s.queue_size s.next_id key y s.hub.sessions
        (keep (lookup-AreKept s.queue_size s.next_id key x s.hub.sessions e k)) k

  rename_session-AreKept :
      (s : Server P) (key name : Text) (x : Option (Session Frame))
      → lookup key s.hub.sessions ≡ x
      → IsSound s
      → AreKept s.queue_size s.next_id (rename_session s.hub key x name).sessions
  unfolding rename_session
  rename_session-AreKept s key name none e h = h
  rename_session-AreKept s key name (some x) e h =
      put-IsSound s key x (record x { short_name = name }) e
        (λ k. record { keyed = k.keyed; made = k.made; sized = k.sized; fits = k.fits }) h

  settle_rename-IsSound :
      (s : Server P) (key name : Text) (x : Roster × Result RosterError (Unit {0}))
      → IsSound s
      → IsSound (settle_rename s key name x).0
  unfolding settle_rename
  settle_rename-IsSound s key name (r, err e) h = h
  settle_rename-IsSound s key name (r, ok _) h =
      rename_session-AreKept s key name (lookup key s.hub.sessions) refl h

  pub rename_agent-IsSound :
      (u : Unicode) (s : Server P) (raw short_name : Text) (o : SaveOutcome)
      → IsSound s
      → IsSound (rename_agent u s raw short_name o).0
  unfolding rename_agent
  rename_agent-IsSound u s raw short_name o h =
      let key = server_key u raw in
      let name = telnet_line u short_name 64 in
      elim (Bool-cases (is_empty name)) [
        | inl nothing ↦ rw nothing h
        | inr something ↦
            rw something (settle_rename-IsSound s key name (rename u s.front.roster key name o) h)
      ]

  pub settle_channels-IsSound :
      {F : Type 0} (s : Server P) (x : Result ConfigError (RelayConfig F))
      → IsSound s
      → IsSound (settle_channels s x).0
  unfolding settle_channels
  settle_channels-IsSound s (err e) h = h
  settle_channels-IsSound s (ok c) h = h

  pub probe_framed-AreKept :
      (s : Server P) (p : PendingTests) (x : Session Frame) (id why : Text) (result : TestResult)
      → (frame : Option Frame) → lookup result.server_key s.hub.sessions ≡ some x
      → IsSound s
      → AreKept s.queue_size s.next_id (probe_framed s.hub p x id why result frame).0.sessions
  unfolding probe_framed send_session
  probe_framed-AreKept s p x id why result none e h = h
  probe_framed-AreKept s p x id why result (some f) e h =
      put-IsSound s result.server_key x (send x f) e
        (Grows-IsKept s.queue_size s.next_id result.server_key (send-Grows x f)) h

  probe_session-AreKept :
      (j : Json Probe) (s : Server P) (p : PendingTests) (id : Text) (with_echo : Bool) (why : Text)
      → (result : TestResult) (x : Option (Session Frame))
      → lookup result.server_key s.hub.sessions ≡ x
      → IsSound s
      → AreKept s.queue_size s.next_id
          (probe_session j s.hub p id with_echo why result x).0.sessions
  unfolding probe_session
  probe_session-AreKept j s p id with_echo why result none e h = h
  probe_session-AreKept j s p id with_echo why result (some x) e h =
      probe_framed-AreKept s p x id why
        (record result { is_connected = true; short_name = x.short_name })
        (new_frame j FrameType.test (record {
          id = id;
          is_echo = with_echo;
          message = codes "Modern EQ Chat connection test from the hub";
        }))
        e h

  pub test_agent-IsSound :
      (u : Unicode) (c : Codecs) (s : Server P) (raw : Text) (with_echo : Bool) (id why : Text)
      → IsSound s
      → IsSound (test_agent u c s raw with_echo id why)
  unfolding test_agent begin_test first_result session_of
  test_agent-IsSound u c s raw with_echo id why h =
      let key = server_key u raw in
      probe_session-AreKept c.test s s.tests id with_echo why
        (first_result key (entry u s.front.roster key).1) (lookup key s.hub.sessions) refl h
