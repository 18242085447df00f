-- ===== src/Hub/Runs/Kept.antt =====
-- What sending and the changes of one session keep of every session in the map.
use talkeqidea.Common.{
  ℕ, suc, ◌≤◌, ◌<◌, ◌≡◌, inl, inr, refl, sym, ap, ◌∙◌, Bool, true, false, Bool-cases, List, [], ◌∷◌,
  Option, none, some, arith, Text, text_eq, text_eq_iff, length, length-append, ltb, ltb→lt,
  is_empty, if◌then◌else◌, TextMap, lookup, insert, erase, Result, ok, err,
}
use talkeqidea.Golang.Strings.{Unicode}
use talkeqidea.Relay.Event.{Event, Renderer}
use talkeqidea.Hub.Router.{Router, Plan, RouteError, is_empty_plan, route}
use talkeqidea.Hub.Session.{
  Session, send, send_open, send_full, settle_send, try_send, drop_from, take_head,
}
use talkeqidea.Hub.Core.{
  Hub, is_same, remove_session, send_to, fan_out, fan_out_encoded, carry_out, publish, on_event,
  cleaned, relayed, connected_keys,
}
use talkeqidea.Hub.Frames.{set_session}

module _ {F : Type 0} where
  -- A session that stands under its own key, is one of those made so far, and whose queue holds
  -- no more than there is room for.
  pub record IsKept (q n : ℕ) (key : Text) (x : Session F) : Type 0 where
    pub keyed : key ≡ x.server_key
    pub made : x.id < n
    pub sized : x.capacity ≡ q
    pub fits : length x.out ≤ q

  unfoldable pub AreKept : ℕ → ℕ → TextMap (Session F) → Type 0
  AreKept q n [] = Unit
  AreKept q n ((key, x) ∷ m) = IsKept q n key x × AreKept q n m

  pub insert-AreKept :
      (q n : ℕ) (key : Text) (x : Session F) (m : TextMap (Session F))
      → IsKept q n key x
      → AreKept q n m
      → AreKept q n (insert key x m)
  unfolding AreKept insert
  insert-AreKept q n key x [] k h = (k, tt)
  insert-AreKept q n key x ((at, y) ∷ m) k (h, hs) = elim (Bool-cases (text_eq at key)) [
    | inl same ↦ rw (same, (text_eq_iff at key).0 same) (k, hs)
    | inr other ↦ rw other (h, insert-AreKept q n key x m k hs)
  ]

  pub erase-AreKept :
      (q n : ℕ) (key : Text) (m : TextMap (Session F)) → AreKept q n m → AreKept q n (erase key m)
  unfolding AreKept erase
  erase-AreKept q n key [] h = tt
  erase-AreKept q n key ((at, y) ∷ m) (h, hs) = elim (Bool-cases (text_eq at key)) [
    | inl same ↦ rw same (erase-AreKept q n key m hs)
    | inr other ↦ rw other (h, erase-AreKept q n key m hs)
  ]

  pub lookup-AreKept :
      (q n : ℕ) (key : Text) (x : Session F) (m : TextMap (Session F))
      → lookup key m ≡ some x
      → AreKept q n m
      → IsKept q n key x
  unfolding AreKept lookup
  lookup-AreKept q n key x [] e h = absurd (cc)
  lookup-AreKept q n key x ((at, y) ∷ m) e (h, hs) = elim (Bool-cases (text_eq at key)) [
    | inl same ↦ let found : y ≡ x = ground arith in rw (← (text_eq_iff at key).0 same, ← found) h
    | inr other ↦ lookup-AreKept q n key x m (rw other at e) hs
  ]

  pub later-AreKept : (q n : ℕ) (m : TextMap (Session F)) → AreKept q n m → AreKept q (suc n) m
  unfolding AreKept
  later-AreKept q n [] h = tt
  later-AreKept q n ((at, y) ∷ m) (h, hs) = (
    record { keyed = h.keyed; made = omega (arith, h.made); sized = h.sized; fits = h.fits },
    later-AreKept q n m hs,
  )

  -- What a queue may become.
  pub record Grows (x y : Session F) : Type 0 where
    pub same_key : y.server_key ≡ x.server_key
    pub same_id : y.id ≡ x.id
    pub same_capacity : y.capacity ≡ x.capacity
    pub bounded : length x.out ≤ x.capacity → length y.out ≤ x.capacity

  Grows-refl : (x : Session F) → Grows x x
  Grows-refl x = record { same_key = refl; same_id = refl; same_capacity = refl; bounded = λ h. h }

  Grows-trans : {x y z : Session F} → Grows x y → Grows y z → Grows x z
  Grows-trans {x} {y} {z} g h = record {
    same_key = h.same_key ∙ g.same_key;
    same_id = h.same_id ∙ g.same_id;
    same_capacity = h.same_capacity ∙ g.same_capacity;
    bounded = λ k.
        let l = g.bounded k in
        let r = h.bounded (omega (arith, l, g.same_capacity)) in omega (arith, r, g.same_capacity);
  }

  try_send-Grows : (x : Session F) (f : F) → Grows x (try_send x f).0
  unfolding try_send
  try_send-Grows x f = elim (Bool-cases (ltb (length x.out) x.capacity)) [
    | inr full ↦ rw full (Grows-refl x)
    | inl room ↦ rw room (record {
      same_key = refl;
      same_id = refl;
      same_capacity = refl;
      bounded = λ h. omega (arith, length-append x.out (f ∷ []), ltb→lt _ _ room);
    })
  ]

  drop_from-Grows : (x : Session F) (out : List F) → x.out ≡ out → Grows x (drop_from x out)
  unfolding drop_from
  drop_from-Grows x [] e = Grows-refl x
  drop_from-Grows x (y ∷ rest) e = record {
    same_key = refl;
    same_id = refl;
    same_capacity = refl;
    bounded = λ h. omega (arith, ap length e);
  }

  pub take_head-Grows : (x : Session F) (out : List F) → x.out ≡ out → Grows x (take_head x out)
  unfolding take_head
  take_head-Grows x [] e = Grows-refl x
  take_head-Grows x (y ∷ rest) e = record {
    same_key = refl;
    same_id = refl;
    same_capacity = refl;
    bounded = λ h. omega (arith, ap length e);
  }

  settle_send-Grows : (x : Session F) (y : Session F × Bool) → Grows x y.0 → Grows x (settle_send y)
  unfolding settle_send
  settle_send-Grows x (y, true) g = g
  settle_send-Grows x (y, false) g = record {
    same_key = g.same_key;
    same_id = g.same_id;
    same_capacity = g.same_capacity;
    bounded = g.bounded;
  }

  send_open-Grows :
      (x : Session F) (f : F) (y : Session F × Bool) → Grows x y.0 → Grows x (send_open f y)
  unfolding send_open send_full
  send_open-Grows x f (y, true) g = g
  send_open-Grows x f (y, false) g =
      let dropped = drop_from y y.out in
      Grows-trans g (
        Grows-trans (drop_from-Grows y y.out refl)
          (settle_send-Grows dropped (try_send dropped f) (try_send-Grows dropped f)))

  pub send-Grows : (x : Session F) (f : F) → Grows x (send x f)
  unfolding send
  send-Grows x f = go x.is_done
    where
      go : (b : Bool) → Grows x (if b then x else send_open f (try_send x f))
      go true = Grows-refl x
      go false = send_open-Grows x f (try_send x f) (try_send-Grows x f)

  pub Grows-IsKept :
      (q n : ℕ) (key : Text) {x y : Session F} → Grows x y → IsKept q n key x → IsKept q n key y
  Grows-IsKept q n key {x} {y} g h = record {
    keyed = h.keyed ∙ sym g.same_key;
    made = omega (arith, h.made, g.same_id);
    sized = g.same_capacity ∙ h.sized;
    fits = omega (arith, g.bounded (omega (arith, h.fits, h.sized)), h.sized);
  }

  -- The changes of a session that stands in the map.
  pub set_session-AreKept :
      (q n : ℕ) (h : Hub F) (y : Session F)
      → (is_same y (lookup y.server_key h.sessions) ≡ true → IsKept q n y.server_key y)
      → AreKept q n h.sessions
      → AreKept q n (set_session h y).sessions
  unfolding set_session
  set_session-AreKept q n h y changed k =
      elim (Bool-cases (is_same y (lookup y.server_key h.sessions))) [
        | inl here ↦ rw here (insert-AreKept q n y.server_key y h.sessions (changed here) k)
        | inr gone ↦ rw gone k
      ]

  send_to-AreKept :
      (q n : ℕ) (key : Text) (f : F) (m : TextMap (Session F)) (o : Option (Session F))
      → lookup key m ≡ o
      → AreKept q n m
      → AreKept q n (send_to key f m o)
  unfolding send_to
  send_to-AreKept q n key f m none e h = h
  send_to-AreKept q n key f m (some x) e h =
      insert-AreKept q n key (send x f) m
        (Grows-IsKept q n key (send-Grows x f) (lookup-AreKept q n key x m e h)) h

  fan_out-AreKept :
      (q n : ℕ) (f : F) (ks : List Text) (m : TextMap (Session F))
      → AreKept q n m
      → AreKept q n (fan_out f m ks)
  unfolding fan_out
  fan_out-AreKept q n f [] m h = h
  fan_out-AreKept q n f (key ∷ ks) m h =
      fan_out-AreKept q n f ks (send_to key f m (lookup key m))
        (send_to-AreKept q n key f m (lookup key m) refl h)

  encoded-AreKept :
      (q n : ℕ) (f : Option F) (ks : List Text) (m : TextMap (Session F))
      → AreKept q n m
      → AreKept q n (fan_out_encoded f m ks)
  unfolding fan_out_encoded
  encoded-AreKept q n none ks m h = h
  encoded-AreKept q n (some f) ks m h = fan_out-AreKept q n f ks m h

  pub remove_session-AreKept :
      (q n : ℕ) (h : Hub F) (x : Session F)
      → AreKept q n h.sessions
      → AreKept q n (remove_session h x).sessions
  unfolding remove_session
  remove_session-AreKept q n h x k =
      elim (Bool-cases (is_same x (lookup x.server_key h.sessions))) [
        | inl here ↦ rw here (erase-AreKept q n x.server_key h.sessions k)
        | inr replaced ↦ rw replaced k
      ]

  module _ (u : Unicode) (execute : Renderer) (encode : Event → Option F) (q n : ℕ) where
    carry_out-AreKept :
        (e : Event) (m : TextMap (Session F)) (x : Router × Result RouteError Plan)
        → AreKept q n m
        → AreKept q n (carry_out u execute encode e m x).0.sessions
    unfolding carry_out
    carry_out-AreKept e m (r, err _) h = h
    carry_out-AreKept e m (r, ok p) h = elim (Bool-cases (is_empty_plan p)) [
      | inl nothing ↦ rw nothing h
      | inr something ↦ elim (Bool-cases (is_empty p.targets)) [
        | inl no_server ↦ rw (something, no_server) h
        | inr servers ↦
            rw (something, servers) (encoded-AreKept q n (encode (relayed e)) p.targets m h)
      ]
    ]

    pub publish-AreKept :
        (h : Hub F) (now : ℕ) (e : Event)
        → AreKept q n h.sessions
        → AreKept q n (publish u execute encode h now e).0.sessions
    unfolding publish
    publish-AreKept h now e k =
        carry_out-AreKept (cleaned u e) h.sessions
          (route execute h.router now (cleaned u e) (connected_keys h)) k

    pub on_event-AreKept :
        (h : Hub F) (now : ℕ) (x : Session F) (within : Bool) (e : Option Event)
        → AreKept q n h.sessions
        → AreKept q n (on_event u execute encode h now x within e).0.sessions
    unfolding on_event
    on_event-AreKept h now x within none k = k
    on_event-AreKept h now x false (some e) k = k
    on_event-AreKept h now x true (some e) k =
        publish-AreKept h now (record e { origin = x.server_key; origin_name = x.short_name }) k
