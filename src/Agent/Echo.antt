-- ===== src/Agent/Echo.antt =====
-- agent/echo.go: the lines that an agent wrote into its own game. Times are nanoseconds.
pub mod Laws
mod Tests
use talkeqidea.Common.{
  ℕ, ◌+◌, ◌*◌, ◌≡◌, Bool, true, false, not, List, [], ◌∷◌, ◌++◌, Option, none, some, Text, length,
  ltb, ◌==◌, if◌then◌else◌, TextMap, lookup, insert, erase, retain,
}
use talkeqidea.Relay.Event.{Event, echo_key}

pub record EchoCache : Type 0 where
  pub ttl : ℕ
  pub limit : ℕ
  pub expiry : TextMap ℕ

unfoldable pub new_echo_cache : ℕ → EchoCache
new_echo_cache ttl = record {
  ttl = if ttl == 0 then 10 * 1000000000 else ttl;
  limit = 4096;
  expiry = [];
}

-- Past its limit the map is cleared.
unfoldable pub cap : ℕ → TextMap ℕ → TextMap ℕ
cap limit m = if ltb limit (length m) then [] else m

unfoldable pub prune : EchoCache → ℕ → EchoCache
prune c now = record c {
  expiry = cap c.limit (retain (λ deadline. not (ltb deadline now)) c.expiry);
}

unfoldable pub remember : EchoCache → ℕ → Event → EchoCache
unfolding prune
remember c now e = record c { expiry = insert (echo_key e) (now + c.ttl) (prune c now).expiry }

unfoldable pub consume : EchoCache → ℕ → Text → Option ℕ → EchoCache × Bool
consume c now key none = (c, false)
consume c now key (some deadline) = (record c { expiry = erase key c.expiry }, ltb now deadline)

unfoldable pub is_echo : EchoCache → ℕ → Text → Text → EchoCache × Bool
is_echo c now name message =
    let key = name ++ 0 ∷ message in consume c now key (lookup key c.expiry)
