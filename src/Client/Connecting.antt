-- ===== src/Client/Connecting.antt =====
-- client/client.go: the order in which the endpoints are connected, and what the two loops do in one
-- round. Whether an endpoint can be connected is an argument.
use talkeqidea.Common.{
  ℕ, ◌+◌, Bool, true, false, not, ◌&&◌, ◌||◌, List, [], ◌∷◌, ◌++◌, Option, none, some,
  if◌then◌else◌,
}

pub data Endpoint : Type 0 where
  hub web agent discord telnet sqlreport eqlog peqeditorsql api : Endpoint

-- Which sides of the relay there are.
pub record Sides : Type 0 where
  pub has_hub : Bool
  pub has_web : Bool
  pub has_agent : Bool

unfoldable pub included : Bool → Endpoint → Bool → List (Endpoint × Bool)
included is_there e is_tolerated = if is_there then (e, is_tolerated) ∷ [] else []

-- The endpoints in order, each with whether its failure is only warned of.
unfoldable pub connect_order : Sides → Bool → List (Endpoint × Bool)
connect_order s is_keep_alive =
    included s.has_hub hub false
    ++ included s.has_web web true
    ++ included s.has_agent agent false
    ++ (discord, is_keep_alive)
      ∷ (telnet, is_keep_alive)
      ∷ (sqlreport, is_keep_alive)
      ∷ (eqlog, is_keep_alive)
      ∷ (peqeditorsql, is_keep_alive)
      ∷ (api, is_keep_alive)
      ∷ []

-- The endpoints that are tried, and the one whose failure ends the attempt.
unfoldable pub connect_in :
    (Endpoint → Bool) → List (Endpoint × Bool) → List Endpoint × Option Endpoint
connect_in works [] = ([], none)
connect_in works ((e, is_tolerated) ∷ rest) =
    let (tried, failed) = connect_in works rest in
    if works e || is_tolerated then (e ∷ tried, failed) else (e ∷ [], some e)

-- `Connect`.
unfoldable pub connect : (Endpoint → Bool) → Sides → Bool → List Endpoint × Option Endpoint
connect works s is_keep_alive = connect_in works (connect_order s is_keep_alive)

-- One round of the loop that keeps connections alive.
unfoldable pub reconnected : (Endpoint → Bool) → (Endpoint → Bool) → List Endpoint → List Endpoint
reconnected is_enabled is_connected [] = []
reconnected is_enabled is_connected (e ∷ rest) =
    let others = reconnected is_enabled is_connected rest in
    if is_enabled e && not (is_connected e) then e ∷ others else others

unfoldable pub keep_alive_round : (Endpoint → Bool) → (Endpoint → Bool) → List Endpoint
keep_alive_round is_enabled is_connected =
    reconnected is_enabled is_connected (discord ∷ telnet ∷ sqlreport ∷ [])

-- The players that the bot shows: those of this server, and on a hub those of its agents.
unfoldable pub shown_players : ℕ → Option ℕ → ℕ
shown_players online none = online
shown_players online (some relayed) = online + relayed
