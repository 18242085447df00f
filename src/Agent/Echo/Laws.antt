-- ===== src/Agent/Echo/Laws.antt =====
-- What the cache takes for an echo.
use talkeqidea.Common.{
  ℕ, ◌+◌, ◌≤◌, ◌≡◌, refl, false, not, [], ◌∷◌, ◌++◌, none, some, arith, Text, length, ltb, text_eq,
  text_eq_refl, TextMap, lookup, insert, erase, retain, lookup-insert, lookup-erase,
  lookup-insert_self, length-insert-le,
}
use talkeqidea.Relay.Event.{Event, echo_key}
use talkeqidea.Agent.Echo.{EchoCache, cap, prune, remember, consume, is_echo}

-- However many injections of a line the cache has seen before, the next line from the game with
-- its name and message is an echo within the time to live, and the one after it is not.
pub suppressed_once :
    (c : EchoCache) (start first second : ℕ) (e : Event)
    → let heard = is_echo (remember c start e) first e.name e.message in
      (heard.1 ≡ ltb first (start + c.ttl)) × ((is_echo heard.0 second e.name e.message).1 ≡ false)
unfolding is_echo remember consume echo_key
suppressed_once c start first second e =
    let key = e.name ++ 0 ∷ e.message in
    let found : lookup key (insert key (start + c.ttl) (prune c start).expiry)
        ≡ some (start + c.ttl) =
      lookup-insert_self key (start + c.ttl) (prune c start).expiry in
    let gone : lookup key (erase key (remember c start e).expiry) ≡ none =
      rw (lookup-erase key key (remember c start e).expiry, text_eq_refl key) refl in
    rw found (refl, rw gone refl)

length-cap-le : (limit : ℕ) (m : TextMap ℕ) → length (cap limit m) ≤ limit
unfolding cap
length-cap-le limit m = ground arith

-- The map never holds more than one entry above its limit.
pub length-remember-le :
    (c : EchoCache) (now : ℕ) (e : Event) → length (remember c now e).expiry ≤ c.limit + 1
unfolding remember prune
length-remember-le c now e =
    let kept = retain (λ deadline. not (ltb deadline now)) c.expiry in
    omega (
      arith,
      length-insert-le (echo_key e) (now + c.ttl) (cap c.limit kept),
      length-cap-le c.limit kept,
    )

cap_nil : (limit : ℕ) → cap limit [] ≡ []
unfolding cap
cap_nil limit = ground arith

-- In a cache that was empty only the key of the event is there.
lookup-remember_ne :
    (c : EchoCache) (now : ℕ) (e : Event) (key : Text)
    → c.expiry ≡ []
    → text_eq (echo_key e) key ≡ false
    → lookup key (remember c now e).expiry ≡ none
unfolding remember prune cap lookup retain
lookup-remember_ne c now e key empty other =
    let kept = retain (λ deadline. not (ltb deadline now)) c.expiry in
    let nothing : cap c.limit kept ≡ [] = rw empty (cap_nil c.limit) in
    rw (lookup-insert (echo_key e) key (now + c.ttl) (cap c.limit kept), other, nothing) refl

pub is_echo-remember_ne :
    (c : EchoCache) (now later : ℕ) (e : Event) (name message : Text)
    → c.expiry ≡ []
    → text_eq (echo_key e) (name ++ 0 ∷ message) ≡ false
    → (is_echo (remember c now e) later name message).1 ≡ false
unfolding is_echo consume
is_echo-remember_ne c now later e name message empty other =
    rw (lookup-remember_ne c now e (name ++ 0 ∷ message) empty other) refl

pub remember-limit : (c : EchoCache) (now : ℕ) (e : Event) → (remember c now e).limit ≡ c.limit
unfolding remember
remember-limit c now e = refl
