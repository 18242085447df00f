-- ===== src/Agent/Link/Queue.antt =====
-- The outbound queue of an agent beside the queue that the hub keeps for it.
use talkeqidea.Common.{suc, ◌≡◌, refl, false, Bool-cases, inl, inr, List, [], ◌∷◌, length, ltb}
use talkeqidea.Relay.Frame.{Frame}
use talkeqidea.Hub.Session.{Session, send}
use talkeqidea.Agent.Link.{Agent, outbound_queue, offer, shed, settle, make_room, enqueue}

-- The queue of an agent as the queue of an open session.
abbrev pub as_session : Agent → Session Frame
as_session a = record {
  id = 0;
  server_key = a.cfg.server_key;
  short_name = a.cfg.short_name;
  out = a.out;
  capacity = outbound_queue;
  is_done = false;
  dropped = a.dropped;
  player_count = a.player_count;
  source_up = a.source_up;
  connected_at = 0;
}

enqueue-send_on :
    (a : Agent) (frame : Frame) (out : List Frame)
    → a.out ≡ out
    → as_session (enqueue a frame) ≡ send (as_session a) frame
unfolding enqueue make_room settle shed offer send
enqueue-send_on a frame [] e = rw e refl
enqueue-send_on a frame (x ∷ rest) e = elim (Bool-cases (ltb (suc (length rest)) outbound_queue)) [
  | inl room ↦ rw (e, room) refl
  | inr full ↦ elim (Bool-cases (ltb (length rest) outbound_queue)) [
    | inl fits ↦ rw (e, full, fits) refl
    | inr over ↦ rw (e, full, over) refl
  ]
]

-- An agent queues a frame for the hub exactly as the hub's open session of the same capacity does.
pub enqueue-send :
    (a : Agent) (frame : Frame) → as_session (enqueue a frame) ≡ send (as_session a) frame
enqueue-send a frame = enqueue-send_on a frame a.out refl
