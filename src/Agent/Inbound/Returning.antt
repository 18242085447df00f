-- ===== src/Agent/Inbound/Returning.antt =====
-- The lines that come back from the local game after they were injected.
use talkeqidea.Common.{
  ℕ, ◌+◌, ◌<◌, ◌≡◌, ◌≢◌, ◌⊎◌, refl, sym, ◌∙◌, Bool, true, false, ◌||◌, Bool-cases, inl, inr, [],
  ◌∷◌, ◌++◌, Option, none, some, arith, All, All-imp, Text, codes, is_empty, text_eq, text_eq_iff,
  lt→ltb, if◌then◌else◌, lookup,
}
use mathlib.Core.Path.{subst}
use talkeqidea.Golang.Strings.{Unicode}
use talkeqidea.Config.Relay.{find_agent_channel}
use talkeqidea.Sanitize
use talkeqidea.Sanitize.{is_safe_telnet_line, is_name_rune}
use talkeqidea.Sanitize.Names.{IsNameByte, name_clean}
use talkeqidea.Relay.Event.{Event, Renderer, render, echo_key, new_event}
use talkeqidea.Relay.Event.Laws.{split_at_nul, name_byte_ne_zero}
use talkeqidea.Relay.Frame.{Codecs}
use talkeqidea.Agent.Echo.{EchoCache, remember, is_echo, consume}
use talkeqidea.Agent.Echo.Laws.{suppressed_once, is_echo-remember_ne}
use talkeqidea.Config.Settings.{AgentChannel}
use talkeqidea.Agent.Link.{Agent, publish_heard, publish}
use talkeqidea.Agent.Inbound.{
  enabled, inject_rendered, inject_into, cleaned, inject, test_name, test_rendered, test_event,
  test_into, inject_test_line,
}

inject_rendered_state :
    (a : Agent) (now : ℕ) (e : Event) (rendered : Option Text)
    → (inject_rendered a now e rendered).1 ≢ []
    → (inject_rendered a now e rendered).0 ≡ record a { echo = remember a.echo now e }
unfolding inject_rendered
inject_rendered_state a now e none h = absurd (h refl)
inject_rendered_state a now e (some line) h = elim (Bool-cases (is_safe_telnet_line line)) [
  | inl safe ↦ rw safe refl
  | inr unsafe ↦ absurd (h (rw unsafe refl))
]

inject_into_state :
    (execute : Renderer) (a : Agent) (now : ℕ) (e : Event) (ch : Option AgentChannel)
    → (inject_into execute a now e ch).1 ≢ []
    → (inject_into execute a now e ch).0 ≡ record a { echo = remember a.echo now e }
unfolding inject_into
inject_into_state execute a now e none h = absurd (h refl)
inject_into_state execute a now e (some ch) h =
    elim (Bool-cases (is_empty e.name || is_empty e.message)) [
      | inl nothing ↦ absurd (h (rw nothing refl))
      | inr something ↦
          rw something (
            inject_rendered_state a now e (render execute ch.inbound_tmpl e []) (rw something at h))
    ]

inject_state :
    (u : Unicode) (execute : Renderer) (a : Agent) (now : ℕ) (e : Event)
    → (inject u execute a now e).1 ≢ []
    → (inject u execute a now e).0 ≡ record a { echo = remember a.echo now (cleaned u e) }
unfolding inject
inject_state u execute a now e h = elim (Bool-cases (text_eq e.origin a.cfg.server_key)) [
  | inl own ↦ absurd (h (rw own refl))
  | inr other ↦ rw other (
      inject_into_state execute a now (cleaned u e)
        (enabled (find_agent_channel e.channel a.cfg.channels)) (rw other at h))
]

module _ (c : Codecs) where
  publish_heard_echo :
      (a : Agent) (new_id : Text) (now : ℕ) (channel name message : Text) (x : EchoCache × Bool)
      → x.1 ≡ true
      → ((publish_heard c a new_id now channel name message x).1 ≡ false)
        × ((publish_heard c a new_id now channel name message x).0.out ≡ a.out)
  unfolding publish_heard
  publish_heard_echo a new_id now channel name message (echo, true) h = (refl, refl)
  publish_heard_echo a new_id now channel name message (echo, false) h = absurd (cc)

  -- When an event became a line for the game, and the next line that the agent is given to publish,
  -- with nothing injected or published in between, comes within the time to live and has, once
  -- cleaned, the name and the message of the event, it is not sent to the hub.
  pub publish-inject :
      (u : Unicode) (execute : Renderer) (a : Agent) (start now : ℕ) (e : Event)
      → (new_id channel name message : Text) → (inject u execute a start e).1 ≢ []
      → Sanitize.name name ≡ Sanitize.name e.name
      → Sanitize.message u message ≡ Sanitize.message u e.message
      → now < start + a.echo.ttl
      → ((publish c u (inject u execute a start e).0 new_id now channel name message).1 ≡ false)
        × ((publish c u (inject u execute a start e).0 new_id now channel name message).0.out
            ≡ a.out)
  unfolding publish cleaned
  publish-inject u execute a start now e new_id channel name message sent same_name same_message t =
      let after = inject_state u execute a start e sent in
      let echo = (suppressed_once a.echo start now now (cleaned u e)).0 in
      elim (Bool-cases
        (is_empty (Sanitize.name e.name) || is_empty (Sanitize.message u e.message))) [
          | inl nothing ↦ rw (after, same_name, same_message, nothing) (refl, refl)
          | inr something ↦
              rw (after, same_name, same_message, something)
                (publish_heard_echo (record a { echo = remember a.echo start (cleaned u e) }) new_id
                  now channel (Sanitize.name e.name) (Sanitize.message u e.message)
                  (is_echo (remember a.echo start (cleaned u e)) now (Sanitize.name e.name)
                    (Sanitize.message u e.message))
                  (echo ∙ lt→ltb now (start + a.echo.ttl) t))
        ]

test_name_unclean : All (λ c. c ≢ 0) test_name
test_name_unclean = omega arith

-- No cleaned name makes the key of a test line.
test_key_unmatched :
    (u : Unicode) (new_id : Text) (now : ℕ) (sent name message : Text)
    → echo_key (test_event u new_id now sent) ≢ Sanitize.name name ++ 0 ∷ message
unfolding echo_key test_event is_name_rune new_event
test_key_unmatched u new_id now sent name message h =
    let (same, _) =
      split_at_nul test_name (Sanitize.name name) (Sanitize.message u sent) message
        test_name_unclean
        (All-imp IsNameByte (λ c. c ≢ 0) (Sanitize.name name) name_byte_ne_zero (name_clean name).0)
        h in
    let clean : All IsNameByte test_name = subst (All IsNameByte) (sym same) (name_clean name).0 in
    let (_, (_, (_, (_, (_, (_, (space, _))))))) = clean in cc space

text_eq_ne : (s t : Text) → s ≢ t → text_eq s t ≡ false
text_eq_ne s t h = ground (arith, text_eq_iff s t)

is_echo_nil :
    (c : EchoCache) (later : ℕ) (name message : Text)
    → c.expiry ≡ []
    → (is_echo c later name message).1 ≡ false
unfolding is_echo consume lookup
is_echo_nil c later name message empty = rw empty refl

test_rendered_state :
    (why : Text) (a : Agent) (now : ℕ) (e : Event) (rendered : Option Text)
    → ((test_rendered why a now e rendered).0 ≡ a)
      ⊎ ((test_rendered why a now e rendered).0 ≡ record a { echo = remember a.echo now e })
unfolding test_rendered
test_rendered_state why a now e none = inl refl
test_rendered_state why a now e (some line) = elim (Bool-cases (is_safe_telnet_line line)) [
  | inl safe ↦ inr (rw safe refl)
  | inr unsafe ↦ inl (rw unsafe refl)
]

module _ (u : Unicode) (execute : Renderer) where
  test_into_state :
      (a : Agent) (new_id why : Text) (now : ℕ) (message : Text) (ch : Option AgentChannel)
      → ((test_into u execute a new_id why now message ch).0 ≡ a)
        ⊎ ((test_into u execute a new_id why now message ch).0
            ≡ record a { echo = remember a.echo now (test_event u new_id now message) })
  unfolding test_into
  test_into_state a new_id why now message none = inl refl
  test_into_state a new_id why now message (some ch) =
      let e = test_event u new_id now message in
      test_rendered_state why a now e (render execute ch.inbound_tmpl e [])

  -- A test line is not taken for an echo when it comes back: the name it is remembered under holds
  -- spaces, and the names that are looked up are cleaned of them. Here nothing else is remembered.
  pub test_line_unheard :
      (a : Agent) (new_id why : Text) (now later : ℕ) (sent name message : Text)
      → a.echo.expiry ≡ []
      → (is_echo
          (inject_test_line u execute a new_id why now sent).0.echo
          later
          (Sanitize.name name)
          message).1
        ≡ false
  unfolding inject_test_line
  test_line_unheard a new_id why now later sent name message empty =
      let line = if is_empty sent then codes "Modern EQ Chat relay test" else sent in
      let e = test_event u new_id now line in
      let key = Sanitize.name name ++ 0 ∷ message in
      let other : text_eq (echo_key e) key ≡ false =
        text_eq_ne (echo_key e) key (test_key_unmatched u new_id now line name message) in
      elim (test_into_state a new_id why now line
        (enabled (find_agent_channel (codes "ooc") a.cfg.channels))) [
          | inl same ↦ rw same (is_echo_nil a.echo later (Sanitize.name name) message empty)
          | inr remembered ↦
              rw remembered
                (is_echo-remember_ne a.echo now later e (Sanitize.name name) message empty other)
        ]
