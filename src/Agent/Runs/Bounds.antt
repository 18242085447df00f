-- ===== src/Agent/Runs/Bounds.antt =====
-- What an agent holds at most.
use talkeqidea.Common.{
  ℕ, suc, ◌≤◌, ◌≡◌, refl, ap, Bool, true, false, ◌||◌, Bool-cases, inl, inr, List, [], ◌∷◌, ◌++◌,
  Option, none, some, arith, Text, is_empty, length, length-append, ltb, ◌==◌, lookup,
  length-erase-le,
}
use talkeqidea.Golang.Strings.{Unicode}
use talkeqidea.Sanitize
use talkeqidea.Sanitize.{is_safe_telnet_line}
use talkeqidea.Relay.Event.{Event, FrameType}
use talkeqidea.Relay.Frame.{Frame, Codecs, new_frame}
use talkeqidea.Agent.Echo.{EchoCache, remember, is_echo, consume}
use talkeqidea.Agent.Echo.Laws.{length-remember-le, remember-limit}
use talkeqidea.Agent.Link.{
  Agent, outbound_queue, offer, shed, settle, make_room, enqueue, enqueue_made, enqueue_event,
  take_head, queue_status, set_player_count, set_source_up, is_same, publish_heard, publish,
  local_event,
}

-- At most 512 frames wait for the hub, and at most 4097 lines are remembered.
pub record IsBounded (a : Agent) : Type 0 where
  pub queued : length a.out ≤ outbound_queue
  pub limit : a.echo.limit ≡ 4096
  pub remembered : length a.echo.expiry ≤ 4097

-- The queue is all that changes.
length-enqueue-le_on :
    (a : Agent) (frame : Frame) (out : List Frame)
    → a.out ≡ out
    → length a.out ≤ outbound_queue
    → (length (enqueue a frame).out ≤ outbound_queue) × ((enqueue a frame).echo ≡ a.echo)
unfolding enqueue make_room settle shed offer
length-enqueue-le_on a frame [] e h = rw e (omega arith, refl)
length-enqueue-le_on a frame (x ∷ rest) e h =
    elim (Bool-cases (ltb (suc (length rest)) outbound_queue)) [
      | inl room ↦ rw (e, room) (ground (arith, length-append rest (frame ∷ [])), refl)
      | inr full ↦ elim (Bool-cases (ltb (length rest) outbound_queue)) [
        | inl fits ↦ rw (e, full, fits) (ground (arith, length-append rest (frame ∷ [])), refl)
        | inr over ↦ rw (e, full, over) (ground arith, refl)
      ]
    ]

pub enqueue-IsBounded : (a : Agent) (frame : Frame) → IsBounded a → IsBounded (enqueue a frame)
enqueue-IsBounded a frame h =
    let (fits, same) = length-enqueue-le_on a frame a.out refl h.queued in
    record { queued = fits; limit = rw same h.limit; remembered = rw same h.remembered }

pub enqueue_made-IsBounded :
    (a : Agent) (frame : Option Frame) → IsBounded a → IsBounded (enqueue_made a frame)
unfolding enqueue_made
enqueue_made-IsBounded a none h = h
enqueue_made-IsBounded a (some frame) h = enqueue-IsBounded a frame h

pub remember-IsBounded :
    (a : Agent) (now : ℕ) (e : Event)
    → IsBounded a
    → IsBounded (record a { echo = remember a.echo now e })
remember-IsBounded a now e h = record {
  queued = h.queued;
  limit = rw remember-limit h.limit;
  remembered = omega (arith, length-remember-le a.echo now e, h.limit);
}

pub consume-IsBounded :
    (a : Agent) (now : ℕ) (key : Text) (found : Option ℕ)
    → IsBounded a
    → IsBounded (record a { echo = (consume a.echo now key found).0 })
unfolding consume
consume-IsBounded a now key none h = h
consume-IsBounded a now key (some t) h = record {
  queued = h.queued;
  limit = h.limit;
  remembered = omega (arith, length-erase-le key a.echo.expiry, h.remembered);
}

pub take_head-IsBounded :
    (a : Agent) (out : List Frame) → a.out ≡ out → IsBounded a → IsBounded (take_head a out)
unfolding take_head
take_head-IsBounded a [] e h = h
take_head-IsBounded a (x ∷ rest) e h = record {
  queued = omega (arith, h.queued, ap length e);
  limit = h.limit;
  remembered = h.remembered;
}

module _ (c : Codecs) where
  pub queue_status-IsBounded : (a : Agent) → IsBounded a → IsBounded (queue_status c a)
  unfolding queue_status
  queue_status-IsBounded a h =
      enqueue_made-IsBounded a
        (new_frame c.status FrameType.status
          (record { player_count = a.player_count; source_up = a.source_up; dropped_inbound = 0 }))
        h

  pub set_player_count-IsBounded :
      (a : Agent) (n : ℕ) → IsBounded a → IsBounded (set_player_count c a n)
  unfolding set_player_count
  set_player_count-IsBounded a n h = elim (Bool-cases (a.player_count == n)) [
    | inl same ↦ rw same h
    | inr changed ↦ rw changed (
        queue_status-IsBounded (record a { player_count = n })
          (record { queued = h.queued; limit = h.limit; remembered = h.remembered }))
  ]

  pub set_source_up-IsBounded :
      (a : Agent) (is_up : Bool) → IsBounded a → IsBounded (set_source_up c a is_up)
  unfolding set_source_up
  set_source_up-IsBounded a is_up h = elim (Bool-cases (is_same a.source_up is_up)) [
    | inl same ↦ rw same h
    | inr changed ↦ rw changed (
        queue_status-IsBounded (record a { source_up = is_up })
          (record { queued = h.queued; limit = h.limit; remembered = h.remembered }))
  ]

  pub enqueue_event-IsBounded :
      (a : Agent) (frame : Option Frame) → IsBounded a → IsBounded (enqueue_event a frame).0
  unfolding enqueue_event
  enqueue_event-IsBounded a none h = h
  enqueue_event-IsBounded a (some frame) h = enqueue-IsBounded a frame h

  pub publish_heard-IsBounded :
      (a : Agent) (new_id : Text) (now : ℕ) (channel name message : Text) (x : EchoCache × Bool)
      → IsBounded (record a { echo = x.0 })
      → IsBounded (publish_heard c a new_id now channel name message x).0
  unfolding publish_heard
  publish_heard-IsBounded a new_id now channel name message (echo, true) h = h
  publish_heard-IsBounded a new_id now channel name message (echo, false) h =
      enqueue_event-IsBounded (record a { echo = echo })
        (new_frame c.event FrameType.event (local_event a new_id now channel name message)) h

  pub publish-IsBounded :
      (u : Unicode) (a : Agent) (new_id : Text) (now : ℕ) (channel name message : Text)
      → IsBounded a
      → IsBounded (publish c u a new_id now channel name message).0
  unfolding publish is_echo
  publish-IsBounded u a new_id now channel name message h =
      let name' = Sanitize.name name in
      let message' = Sanitize.message u message in
      let key = name' ++ 0 ∷ message' in
      elim (Bool-cases (is_empty name' || is_empty message')) [
        | inl nothing ↦ rw nothing h
        | inr something ↦ rw something (
            publish_heard-IsBounded a new_id now channel name' message'
              (is_echo a.echo now name' message')
              (consume-IsBounded a now key (lookup key a.echo.expiry) h))
      ]
