-- ===== src/Hub/Session/Tests.antt =====
-- A queue for two frames.
use talkeqidea.Common.{ℕ, ◌≤◌, ◌≡◌, refl, [], ◌∷◌, length, drop, codes, arith, false}
use talkeqidea.Hub.Session.{Session, send, close}
use talkeqidea.Hub.Session.Queue.{send_all, send_all-newest}

abbrev idle : Session ℕ
idle = record {
  id = 0;
  server_key = codes "s1";
  short_name = codes "One";
  out = [];
  capacity = 2;
  is_done = false;
  dropped = 0;
  player_count = 0;
  source_up = false;
  connected_at = 0;
}

oldest_shed : (send_all idle (1 ∷ 2 ∷ 3 ∷ [])).out ≡ 2 ∷ 3 ∷ []
unfolding send_all send
oldest_shed = refl

closed_takes_nothing : (send (close idle) 1).out ≡ []
unfolding send close
closed_takes_nothing = refl

send_all-newest_example :
    ((send_all idle (1 ∷ 2 ∷ 3 ∷ [])).out ≡ drop 1 (1 ∷ 2 ∷ 3 ∷ []))
    × ((send_all idle (1 ∷ 2 ∷ 3 ∷ [])).dropped ≡ 1)
    × (length (send_all idle (1 ∷ 2 ∷ 3 ∷ [])).out ≤ 2)
send_all-newest_example = send_all-newest (1 ∷ 2 ∷ 3 ∷ []) idle refl (omega arith) (omega arith)
