-- ===== src/Hub/Router/Replay.antt =====
-- `Route` on an identifier that it had before.
use talkeqidea.Common.{
  ℕ, ◌+◌, ◌≤◌, ◌≡◌, ◌≢◌, refl, ap, ◌∙◌, true, false, List, [], ◌∷◌, arith, Text, Result, ok, err,
  All,
}
use talkeqidea.Relay.Event.{Event, EventError, Renderer, validate}
use talkeqidea.Hub.Seen.{SeenCache, seen_before}
use talkeqidea.Hub.Seen.Memory.{run, seen_again}
use talkeqidea.Hub.Router.{Router, duplicate, route_fresh, route_valid, route}

-- One call of `Route`: its time, its event and the servers connected then.
abbrev pub Call : Type 0
Call = ℕ × Event × List Text

unfoldable pub route_all : Renderer → Router → List Call → Router
route_all execute r [] = r
route_all execute r ((now, e, connected) ∷ calls) =
    route_all execute (route execute r now e connected).0 calls

-- A call reaches the cache only if its event is valid.
add_valid : Result EventError (Unit {0}) → ℕ × Text → List (ℕ × Text) → List (ℕ × Text)
add_valid (ok _) c rest = c ∷ rest
add_valid (err _) c rest = rest

valid_calls : List Call → List (ℕ × Text)
valid_calls [] = []
valid_calls ((now, e, connected) ∷ calls) = add_valid (validate e) (now, e.id) (valid_calls calls)

seen-route :
    (execute : Renderer) (r : Router) (now : ℕ) (e : Event) (connected : List Text)
    → validate e ≡ ok tt
    → (route execute r now e connected).0.seen ≡ (seen_before r.seen now e.id).0
unfolding route
seen-route execute r now e connected h = rw (h, route_valid)

seen-route_invalid :
    (execute : Renderer) (r : Router) (now : ℕ) (e : Event) (connected : List Text)
    {why : EventError}
    → validate e ≡ err why
    → (route execute r now e connected).0 ≡ r
unfolding route
seen-route_invalid execute r now e connected h = rw (h, route_valid)

seen-route_all :
    (execute : Renderer) (calls : List Call) (r : Router)
    → (route_all execute r calls).seen ≡ run r.seen (valid_calls calls)
unfolding route_all valid_calls run add_valid
seen-route_all execute [] r = refl
seen-route_all execute ((now, e, connected) ∷ calls) r =
    go (validate e) refl (seen-route_all execute calls (route execute r now e connected).0)
  where
    go :
        (v : Result EventError (Unit {0}))
        → validate e ≡ v
        → (route_all execute (route execute r now e connected).0 calls).seen
          ≡ run (route execute r now e connected).0.seen (valid_calls calls)
        → (route_all execute (route execute r now e connected).0 calls).seen
          ≡ run r.seen (valid_calls ((now, e, connected) ∷ calls))
    go (ok u) p ih =
        rw (p, add_valid)
          (ih
            ∙ ap (λ (s : SeenCache). run s (valid_calls calls))
                (seen-route execute r now e connected p))
    go (err why) p ih =
        rw (p, add_valid)
          (ih
            ∙ ap (λ (q : Router). run q.seen (valid_calls calls))
                (seen-route_invalid execute r now e connected p))

abbrev IsIn : ℕ → ℕ → ℕ → Type 0
IsIn now window t = (now ≤ t) × (t ≤ now + window)

valid_calls-All :
    (now window : ℕ) (calls : List Call)
    → All (λ c. IsIn now window c.0) calls
    → All (λ c. IsIn now window c.0) (valid_calls calls)
unfolding valid_calls add_valid
valid_calls-All now window [] h = tt
valid_calls-All now window ((t, e, connected) ∷ calls) (h, hs) =
    ground (arith, valid_calls-All now window calls hs)

route_duplicate :
    (execute : Renderer) (r : Router) (now : ℕ) (e : Event) (connected : List Text)
    → validate e ≡ ok tt
    → (seen_before r.seen now e.id).1 ≡ true
    → (route execute r now e connected).1 ≡ err duplicate
unfolding route
route_duplicate execute r now e connected v s = rw (v, route_valid, route_fresh, s)

-- A duplicate in the window is refused: once an event with an identifier that is not empty was valid
-- and fresh, every valid event with its identifier that comes within the window of it is answered by
-- the duplicate error, whatever events are routed in between, if no time goes back before it or past
-- its window.
pub route_twice :
    (execute : Renderer) (r : Router) (now : ℕ) (e : Event) (connected : List Text)
    (calls : List Call) (later : ℕ) (f : Event) (connected' : List Text)
    → validate e ≡ ok tt
    → e.id ≢ []
    → (seen_before r.seen now e.id).1 ≡ false
    → All (λ c. (now ≤ c.0) × (c.0 ≤ now + r.seen.window)) calls
    → now ≤ later
    → later ≤ now + r.seen.window
    → validate f ≡ ok tt
    → f.id ≡ e.id
    → (route execute
        (route_all execute (route execute r now e connected).0 calls)
        later
        f
        connected').1
      ≡ err duplicate
route_twice execute r now e connected calls later f connected' v n fresh times k m w same =
    let r' = route_all execute (route execute r now e connected).0 calls in
    let s : r'.seen ≡ run (seen_before r.seen now e.id).0 (valid_calls calls) =
      seen-route_all execute calls (route execute r now e connected).0
      ∙ ap (λ (c : SeenCache). run c (valid_calls calls))
          (seen-route execute r now e connected v) in
    let again : (seen_before r'.seen later f.id).1 ≡ true =
      rw (s, same)
        (seen_again r.seen now e.id (valid_calls calls) later fresh n
          (valid_calls-All now r.seen.window calls times) k m) in
    route_duplicate execute r' later f connected' w again
