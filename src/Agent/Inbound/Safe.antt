-- ===== src/Agent/Inbound/Safe.antt =====
-- The lines that reach the local console.
use talkeqidea.Common.{
  ℕ, ◌≤◌, ◌≡◌, ◌==◌, any, arith, length, All-imp, false, Bool, true, ◌||◌, Bool-cases, inl, inr,
  List, [], ◌∷◌, Option, none, some, All, Text, codes, is_empty, text_eq, if◌then◌else◌,
}
use talkeqidea.Golang.Strings.{Unicode}
use talkeqidea.Golang.Utf8.Safe.{IsInline}
use talkeqidea.Config.Relay.{find_agent_channel}
use talkeqidea.Sanitize.{is_safe_telnet_line}
use talkeqidea.Relay.Event.{Event, FrameType, Renderer, render}
use talkeqidea.Relay.Frame.{Frame, Codecs, Probe, decode}
use talkeqidea.Config.Settings.{AgentChannel}
use talkeqidea.Agent.Link.{Agent, Subscriber}
use talkeqidea.Agent.Inbound.{
  enabled, send_line, inject_rendered, inject_into, cleaned, inject, try_answer, try_line,
  try_subscribers, test_rendered, test_event, test_into, inject_test_line, answer_test, handle_test,
  inject_decoded, on_frame_of, on_frame,
}

-- One line of the console, of bounded length.
pub record IsConsoleLine (line : Text) : Type 0 where
  pub inline : All IsInline line
  pub bounded : length line ≤ 8192

unbroken-IsInline : (s : Text) → any (λ c. c == 13 || c == 10 || c == 0) s ≡ false → All IsInline s
unbroken-IsInline [] h = tt
unbroken-IsInline (c ∷ s) h = (ground arith, unbroken-IsInline s (ground arith))

safe-IsConsoleLine : (line : Text) → is_safe_telnet_line line ≡ true → IsConsoleLine line
unfolding is_safe_telnet_line
safe-IsConsoleLine line h = elim (Bool-cases (any (λ c. c == 13 || c == 10 || c == 0) line)) [
  | inl broken ↦ absurd (ground arith)
  | inr whole ↦ record { inline = unbroken-IsInline line whole; bounded = ground arith }
]

-- Each line passes the last check before the console.
abbrev AreSafe : List Text → Type 0
AreSafe = All (λ line. is_safe_telnet_line line ≡ true)

send_line-AreSafe :
    (line : Text) (ss : List Subscriber)
    → is_safe_telnet_line line ≡ true
    → AreSafe (send_line line ss)
unfolding send_line
send_line-AreSafe line [] h = tt
send_line-AreSafe line (s ∷ ss) h = (h, send_line-AreSafe line ss h)

inject_rendered-AreSafe :
    (a : Agent) (now : ℕ) (e : Event) (rendered : Option Text)
    → AreSafe (inject_rendered a now e rendered).1
unfolding inject_rendered
inject_rendered-AreSafe a now e none = tt
inject_rendered-AreSafe a now e (some line) = elim (Bool-cases (is_safe_telnet_line line)) [
  | inl safe ↦ rw safe (send_line-AreSafe line a.subscribers safe)
  | inr unsafe ↦ rw unsafe tt
]

inject_into-AreSafe :
    (execute : Renderer) (a : Agent) (now : ℕ) (e : Event) (ch : Option AgentChannel)
    → AreSafe (inject_into execute a now e ch).1
unfolding inject_into
inject_into-AreSafe execute a now e none = tt
inject_into-AreSafe execute a now e (some ch) =
    elim (Bool-cases (is_empty e.name || is_empty e.message)) [
      | inl nothing ↦ rw nothing tt
      | inr something ↦
          rw something (inject_rendered-AreSafe a now e (render execute ch.inbound_tmpl e []))
    ]

inject-AreSafe :
    (u : Unicode) (execute : Renderer) (a : Agent) (now : ℕ) (e : Event)
    → AreSafe (inject u execute a now e).1
unfolding inject
inject-AreSafe u execute a now e = elim (Bool-cases (text_eq e.origin a.cfg.server_key)) [
  | inl own ↦ rw own tt
  | inr other ↦ rw other (
      inject_into-AreSafe execute a now (cleaned u e)
        (enabled (find_agent_channel e.channel a.cfg.channels)))
]

try_answer-AreSafe :
    (line : Text) (answer : Option Text) (later : List Text × Bool × Text)
    → is_safe_telnet_line line ≡ true
    → AreSafe later.0
    → AreSafe (try_answer line answer later).0
unfolding try_answer
try_answer-AreSafe line none later h hs = (h, hs)
try_answer-AreSafe line (some why) later h hs = (h, tt)

try_line-AreSafe :
    (line : Text) (ss : List Subscriber)
    → is_safe_telnet_line line ≡ true
    → AreSafe (try_line line ss).0
unfolding try_line
try_line-AreSafe line [] h = tt
try_line-AreSafe line (s ∷ ss) h =
    try_answer-AreSafe line (s line) (try_line line ss) h (try_line-AreSafe line ss h)

try_subscribers-AreSafe :
    (line : Text) (ss : List Subscriber)
    → is_safe_telnet_line line ≡ true
    → AreSafe (try_subscribers line ss).0
unfolding try_subscribers
try_subscribers-AreSafe line [] h = tt
try_subscribers-AreSafe line (s ∷ ss) h = try_line-AreSafe line (s ∷ ss) h

test_rendered-AreSafe :
    (why : Text) (a : Agent) (now : ℕ) (e : Event) (rendered : Option Text)
    → AreSafe (test_rendered why a now e rendered).1.0
unfolding test_rendered
test_rendered-AreSafe why a now e none = tt
test_rendered-AreSafe why a now e (some line) = elim (Bool-cases (is_safe_telnet_line line)) [
  | inl safe ↦ rw safe (try_subscribers-AreSafe line a.subscribers safe)
  | inr unsafe ↦ rw unsafe tt
]

module _ (u : Unicode) (execute : Renderer) where
  test_into-AreSafe :
      (a : Agent) (new_id why : Text) (now : ℕ) (message : Text) (ch : Option AgentChannel)
      → AreSafe (test_into u execute a new_id why now message ch).1.0
  unfolding test_into
  test_into-AreSafe a new_id why now message none = tt
  test_into-AreSafe a new_id why now message (some ch) =
      let e = test_event u new_id now message in
      test_rendered-AreSafe why a now e (render execute ch.inbound_tmpl e [])

  module _ (c : Codecs) where
    handle_test-AreSafe :
        (a : Agent) (new_id why : Text) (now : ℕ) (req : Option Probe)
        → AreSafe (handle_test u execute c a new_id why now req).1
    unfolding handle_test answer_test inject_test_line
    handle_test-AreSafe a new_id why now none = tt
    handle_test-AreSafe a new_id why now (some req) = elim (Bool-cases req.is_echo) [
      | inl echo ↦ rw echo (
          test_into-AreSafe a new_id why now
            (if is_empty req.message then codes "Modern EQ Chat relay test" else req.message)
            (enabled (find_agent_channel (codes "ooc") a.cfg.channels)))
      | inr quiet ↦ rw quiet tt
    ]

    inject_decoded-AreSafe :
        (a : Agent) (now : ℕ) (e : Option Event) → AreSafe (inject_decoded u execute c a now e).1
    unfolding inject_decoded
    inject_decoded-AreSafe a now none = tt
    inject_decoded-AreSafe a now (some e) = inject-AreSafe u execute a now e

    on_frame_of-AreSafe :
        (t : FrameType) (a : Agent) (new_id why : Text) (now : ℕ) (frame : Frame)
        → AreSafe (on_frame_of u execute c t a new_id why now frame).1
    unfolding on_frame_of
    on_frame_of-AreSafe FrameType.event a new_id why now frame =
        inject_decoded-AreSafe a now (decode c.event frame)
    on_frame_of-AreSafe FrameType.test a new_id why now frame =
        handle_test-AreSafe a new_id why now (decode c.test frame)
    on_frame_of-AreSafe FrameType.hello a new_id why now frame = tt
    on_frame_of-AreSafe FrameType.welcome a new_id why now frame = tt
    on_frame_of-AreSafe FrameType.status a new_id why now frame = tt
    on_frame_of-AreSafe FrameType.error a new_id why now frame = tt
    on_frame_of-AreSafe FrameType.enroll a new_id why now frame = tt
    on_frame_of-AreSafe FrameType.enrolled a new_id why now frame = tt
    on_frame_of-AreSafe FrameType.test_reply a new_id why now frame = tt
    on_frame_of-AreSafe (FrameType.unknown t) a new_id why now frame = tt

    -- Whatever frame the hub sends, each line that the agent hands to the console has no carriage
    -- return, line feed or zero byte and is at most 8192 bytes long.
    pub on_frame_safe :
        (a : Agent) (new_id why : Text) (now : ℕ) (frame : Frame)
        → All IsConsoleLine (on_frame u execute c a new_id why now frame).1
    unfolding on_frame
    on_frame_safe a new_id why now frame =
        All-imp (λ line. is_safe_telnet_line line ≡ true) IsConsoleLine _ safe-IsConsoleLine
          (on_frame_of-AreSafe frame.frame_type a new_id why now frame)
