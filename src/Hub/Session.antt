-- ===== src/Hub/Session.antt =====
-- hub/session.go: one connected agent and its bounded queue.
pub mod Queue
mod Tests
use talkeqidea.Common.{
  ℕ, suc, ◌+◌, ◌-◌, ◌≡◌, Bool, true, false, List, [], ◌∷◌, ◌++◌, Text, length, ltb, if◌then◌else◌,
}

-- What the hub keeps of a session beside the socket and the limiter; frames are of any type. `id`
-- stands for the pointer.
pub record Session (F : Type 0) : Type 0 where
  pub id : ℕ
  pub server_key : Text
  pub short_name : Text
  pub out : List F
  pub capacity : ℕ
  pub is_done : Bool
  pub dropped : ℕ
  pub player_count : ℕ
  pub source_up : Bool
  pub connected_at : ℕ

unfoldable pub new_session : {F : Type 0} → ℕ → Text → Text → ℕ → ℕ → Session F
new_session id server_key short_name queue_size now = record {
  id = id;
  server_key = server_key;
  short_name = short_name;
  out = [];
  capacity = queue_size;
  is_done = false;
  dropped = 0;
  player_count = 0;
  source_up = false;
  connected_at = now;
}

-- `select { case s.out <- frame: default: }`: it goes in if there is room.
unfoldable pub try_send : {F : Type 0} → Session F → F → Session F × Bool
try_send s frame =
    if ltb (length s.out) s.capacity
    then (record s { out = s.out ++ frame ∷ [] }, true)
    else (s, false)

-- `select { case <-s.out: s.dropped.Add(1) default: }`.
unfoldable pub drop_from : {F : Type 0} → Session F → List F → Session F
drop_from s [] = s
drop_from s (_ ∷ rest) = record s { out = rest; dropped = s.dropped + 1 }

-- The last `select` of `Send`: a frame that finds no room is counted.
unfoldable pub settle_send : {F : Type 0} → Session F × Bool → Session F
settle_send (s, true) = s
settle_send (s, false) = record s { dropped = s.dropped + 1 }

-- The queue was full: the head goes, and the frame takes a place.
unfoldable pub send_full : {F : Type 0} → Session F → F → Session F
send_full s frame = settle_send (try_send (drop_from s s.out) frame)

-- The first `select` on the queue.
unfoldable pub send_open : {F : Type 0} → F → Session F × Bool → Session F
send_open frame (s, true) = s
send_open frame (s, false) = send_full s frame

unfoldable pub send : {F : Type 0} → Session F → F → Session F
unfolding send_open send_full settle_send drop_from try_send
send s frame =
    let open_send = send_open frame (try_send s frame) in if s.is_done then s else open_send

-- `closeOnce`: a second call changes nothing.
unfoldable pub close : {F : Type 0} → Session F → Session F
close s = record s { is_done = true }

-- The writer takes the head.
unfoldable pub take_head : {F : Type 0} → Session F → List F → Session F
take_head s [] = s
take_head s (_ ∷ rest) = record s { out = rest }
