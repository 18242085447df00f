-- ===== src/Agent/Runs/Reachable.antt =====
-- What every state that an agent can reach has in common.
use talkeqidea.Common.{
  ℕ, refl, Bool, true, false, ◌||◌, Bool-cases, inl, inr, List, [], Option, none, some, arith, Text,
  codes, is_empty, if◌then◌else◌, text_eq,
}
use talkeqidea.Golang.Strings.{Unicode}
use talkeqidea.Config.Relay.{find_agent_channel}
use talkeqidea.Sanitize.{is_safe_telnet_line}
use talkeqidea.Relay.Event.{Event, FrameType, Renderer, render}
use talkeqidea.Relay.Frame.{Frame, Codecs, Probe, new_frame, decode}
use talkeqidea.Agent.Echo.{new_echo_cache}
use talkeqidea.Config.Settings.{AgentChannel, AgentConf}
use talkeqidea.Agent.Link.{Agent, new_agent, subscribe, set_version, disconnect}
use talkeqidea.Agent.Inbound.{
  enabled, inject_rendered, inject_into, cleaned, inject, test_rendered, test_event, test_into,
  inject_test_line, answer_test, handle_test, inject_decoded, on_frame_of, on_frame,
}
use talkeqidea.Agent.Reconnect.{session_over}
use talkeqidea.Agent.Runs.{
  Step, subscribed, versioned, counted, source_changed, published, received, written, session_ended,
  disconnected, Reach, here, next,
}
use talkeqidea.Agent.Runs.Bounds.{
  IsBounded, enqueue_made-IsBounded, remember-IsBounded, take_head-IsBounded,
  set_player_count-IsBounded, set_source_up-IsBounded, publish-IsBounded,
}

inject_rendered-IsBounded :
    (a : Agent) (now : ℕ) (e : Event) (rendered : Option Text)
    → IsBounded a
    → IsBounded (inject_rendered a now e rendered).0
unfolding inject_rendered
inject_rendered-IsBounded a now e none h = h
inject_rendered-IsBounded a now e (some line) h = elim (Bool-cases (is_safe_telnet_line line)) [
  | inl safe ↦ rw safe (remember-IsBounded a now e h)
  | inr unsafe ↦ rw unsafe h
]

test_rendered-IsBounded :
    (why : Text) (a : Agent) (now : ℕ) (e : Event) (rendered : Option Text)
    → IsBounded a
    → IsBounded (test_rendered why a now e rendered).0
unfolding test_rendered
test_rendered-IsBounded why a now e none h = h
test_rendered-IsBounded why a now e (some line) h = elim (Bool-cases (is_safe_telnet_line line)) [
  | inl safe ↦ rw safe (remember-IsBounded a now e h)
  | inr unsafe ↦ rw unsafe h
]

module _ (u : Unicode) (execute : Renderer) where
  inject_into-IsBounded :
      (a : Agent) (now : ℕ) (e : Event) (ch : Option AgentChannel)
      → IsBounded a
      → IsBounded (inject_into execute a now e ch).0
  unfolding inject_into
  inject_into-IsBounded a now e none h = h
  inject_into-IsBounded a now e (some ch) h =
      elim (Bool-cases (is_empty e.name || is_empty e.message)) [
        | inl nothing ↦ rw nothing h
        | inr something ↦
            rw something (inject_rendered-IsBounded a now e (render execute ch.inbound_tmpl e []) h)
      ]

  inject-IsBounded :
      (a : Agent) (now : ℕ) (e : Event) → IsBounded a → IsBounded (inject u execute a now e).0
  unfolding inject
  inject-IsBounded a now e h = elim (Bool-cases (text_eq e.origin a.cfg.server_key)) [
    | inl own ↦ rw own h
    | inr other ↦ rw other (
        inject_into-IsBounded a now (cleaned u e)
          (enabled (find_agent_channel e.channel a.cfg.channels)) h)
  ]

  test_into-IsBounded :
      (a : Agent) (new_id why : Text) (now : ℕ) (message : Text) (ch : Option AgentChannel)
      → IsBounded a
      → IsBounded (test_into u execute a new_id why now message ch).0
  unfolding test_into
  test_into-IsBounded a new_id why now message none h = h
  test_into-IsBounded a new_id why now message (some ch) h =
      let e = test_event u new_id now message in
      test_rendered-IsBounded why a now e (render execute ch.inbound_tmpl e []) h

  module _ (c : Codecs) where
    answer_test-IsBounded :
        (req : Probe) (x : Agent × (List Text × Bool × Text))
        → IsBounded x.0
        → IsBounded (answer_test u execute c req x).0
    unfolding answer_test
    answer_test-IsBounded req (a, (lines, injected_ok, detail)) h =
        enqueue_made-IsBounded a
          (new_frame c.test_reply FrameType.test_reply (record {
            id = req.id;
            source_up = a.source_up;
            player_count = a.player_count;
            version = a.version;
            injected_ok = injected_ok;
            detail = detail;
          }))
          h

    handle_test-IsBounded :
        (a : Agent) (new_id why : Text) (now : ℕ) (req : Option Probe)
        → IsBounded a
        → IsBounded (handle_test u execute c a new_id why now req).0
    unfolding handle_test inject_test_line answer_test
    handle_test-IsBounded a new_id why now none h = h
    handle_test-IsBounded a new_id why now (some req) h = elim (Bool-cases req.is_echo) [
      | inl echo ↦ rw echo (
          answer_test-IsBounded req (inject_test_line u execute a new_id why now req.message) (
            test_into-IsBounded a new_id why now
              (if is_empty req.message then codes "Modern EQ Chat relay test" else req.message)
              (enabled (find_agent_channel (codes "ooc") a.cfg.channels)) h))
      | inr quiet ↦ rw quiet (answer_test-IsBounded req (a, ([], false, [])) h)
    ]

    inject_decoded-IsBounded :
        (a : Agent) (now : ℕ) (e : Option Event)
        → IsBounded a
        → IsBounded (inject_decoded u execute c a now e).0
    unfolding inject_decoded
    inject_decoded-IsBounded a now none h = h
    inject_decoded-IsBounded a now (some e) h = inject-IsBounded a now e h

    on_frame_of-IsBounded :
        (t : FrameType) (a : Agent) (new_id why : Text) (now : ℕ) (frame : Frame)
        → IsBounded a
        → IsBounded (on_frame_of u execute c t a new_id why now frame).0
    unfolding on_frame_of
    on_frame_of-IsBounded FrameType.event a new_id why now frame h =
        inject_decoded-IsBounded a now (decode c.event frame) h
    on_frame_of-IsBounded FrameType.test a new_id why now frame h =
        handle_test-IsBounded a new_id why now (decode c.test frame) h
    on_frame_of-IsBounded FrameType.hello a new_id why now frame h = h
    on_frame_of-IsBounded FrameType.welcome a new_id why now frame h = h
    on_frame_of-IsBounded FrameType.status a new_id why now frame h = h
    on_frame_of-IsBounded FrameType.error a new_id why now frame h = h
    on_frame_of-IsBounded FrameType.enroll a new_id why now frame h = h
    on_frame_of-IsBounded FrameType.enrolled a new_id why now frame h = h
    on_frame_of-IsBounded FrameType.test_reply a new_id why now frame h = h
    on_frame_of-IsBounded (FrameType.unknown t) a new_id why now frame h = h

    Step-IsBounded : {a b : Agent} → Step u execute c a b → IsBounded a → IsBounded b
    unfolding subscribe set_version session_over disconnect on_frame
    Step-IsBounded {a} (subscribed s) h = record {
      queued = h.queued;
      limit = h.limit;
      remembered = h.remembered;
    }
    Step-IsBounded {a} (versioned version) h = record {
      queued = h.queued;
      limit = h.limit;
      remembered = h.remembered;
    }
    Step-IsBounded {a} (counted n) h = set_player_count-IsBounded c a n h
    Step-IsBounded {a} (source_changed is_up) h = set_source_up-IsBounded c a is_up h
    Step-IsBounded {a} (published new_id now channel name message) h =
        publish-IsBounded c u a new_id now channel name message h
    Step-IsBounded {a} (received new_id why now frame) h =
        on_frame_of-IsBounded frame.frame_type a new_id why now frame h
    Step-IsBounded {a} written h = take_head-IsBounded a a.out refl h
    Step-IsBounded {a} (session_ended true) h = record {
      queued = h.queued;
      limit = h.limit;
      remembered = h.remembered;
    }
    Step-IsBounded {a} (session_ended false) h = record {
      queued = h.queued;
      limit = h.limit;
      remembered = h.remembered;
    }
    Step-IsBounded {a} disconnected h = record {
      queued = h.queued;
      limit = h.limit;
      remembered = h.remembered;
    }

    -- In every state that an agent can reach, whatever the game, the hub and the socket do and in
    -- whatever order, at most 512 frames wait and at most 4097 lines are remembered.
    pub Reach-IsBounded : (cfg : AgentConf) (a : Agent) → Reach u execute c cfg a → IsBounded a
    unfolding new_agent new_echo_cache
    Reach-IsBounded cfg a here = record {
      queued = omega arith;
      limit = refl;
      remembered = omega arith;
    }
    Reach-IsBounded cfg a (next r s) = Step-IsBounded s (Reach-IsBounded cfg _ r)
