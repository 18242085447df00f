-- ===== src/Hub/Core/Delivery.antt =====
-- Who is sent what.
use mathlib.Core.Option
use talkeqidea.Common.{
  ℕ, ◌≡◌, inl, inr, refl, sym, ap, ◌∙◌, Bool, true, false, Bool-cases, Option-cases, List, [], ◌∷◌,
  Option, none, some, arith, Text, is_empty, text_eq, text_eq_iff, text_eq_refl, holds,
  if◌then◌else◌, TextMap, lookup, lookup-insert, Result, ok, err,
}
use talkeqidea.Golang.Strings.{Unicode}
use talkeqidea.Relay.Event.{Event, Renderer}
use talkeqidea.Hub.Router.{Router, Plan, RouteError, route, is_empty_plan}
use talkeqidea.Hub.Router.Accepts.{route-eq-ok_iff}
use talkeqidea.Hub.Router.Targets.{route_targets}
use talkeqidea.Hub.Session.{Session, send}
use talkeqidea.Hub.Core.{
  Hub, send_to, fan_out, fan_out_encoded, carry_out, publish, on_event, cleaned, relayed,
  connected_keys,
}

module _ {F : Type 0} where
  map_same : (o : Option (Session F)) → Option.map (λ s. s) o ≡ o
  map_same none = refl
  map_same (some s) = refl

  map_fuse :
      (f g : Session F → Session F) (o : Option (Session F))
      → Option.map g (Option.map f o) ≡ Option.map (λ s. g (f s)) o
  map_fuse f g none = refl
  map_fuse f g (some s) = refl

  -- A session that is sent a frame once for each time its key is in a list.
  unfoldable pub send_each : F → Text → List Text → Session F → Session F
  send_each frame key [] s = s
  send_each frame key (k ∷ ks) s =
      send_each frame key ks (if text_eq k key then send s frame else s)

  lookup-send_to :
      (frame : F) (k key : Text) (m : TextMap (Session F))
      → lookup key (send_to k frame m (lookup k m))
        ≡ Option.map (λ s. if text_eq k key then send s frame else s) (lookup key m)
  unfolding send_to
  lookup-send_to frame k key m = elim (Bool-cases (text_eq k key)) [
    | inl same ↦
        let eq : k ≡ key = (text_eq_iff k key).0 same in
        elim (Option-cases (lookup key m)) [
          | inl none_there ↦ rw (eq, none_there) none_there
          | inr (s, found) ↦
              rw (eq, found, lookup-insert key key (send s frame) m, text_eq_refl key) refl
        ]
    | inr other ↦ elim (Option-cases (lookup k m)) [
      | inl none_there ↦ rw (none_there, other) (sym (map_same (lookup key m)))
      | inr (s, found) ↦
          rw (found, lookup-insert k key (send s frame) m, other) (sym (map_same (lookup key m)))
    ]
  ]

  lookup-fan_out :
      (frame : F) (key : Text) (ks : List Text) (m : TextMap (Session F))
      → lookup key (fan_out frame m ks) ≡ Option.map (send_each frame key ks) (lookup key m)
  unfolding fan_out send_each
  lookup-fan_out frame key [] m = sym (map_same (lookup key m))
  lookup-fan_out frame key (k ∷ ks) m =
      lookup-fan_out frame key ks (send_to k frame m (lookup k m))
      ∙ ap (Option.map (send_each frame key ks)) (lookup-send_to frame k key m)
      ∙ map_fuse (λ s. if text_eq k key then send s frame else s) (send_each frame key ks)
          (lookup key m)

  send_each_none :
      (frame : F) (key : Text) (ks : List Text) (s : Session F)
      → holds key ks ≡ false
      → send_each frame key ks s ≡ s
  unfolding send_each holds
  send_each_none frame key [] s h = refl
  send_each_none frame key (k ∷ ks) s h = ground (arith, send_each_none frame key ks s)

  fan_out_kept :
      (encoded : Option F) (key : Text) (ks : List Text) (m : TextMap (Session F))
      → holds key ks ≡ false
      → lookup key (fan_out_encoded encoded m ks) ≡ lookup key m
  unfolding fan_out_encoded
  fan_out_kept none key ks m h = refl
  fan_out_kept (some frame) key ks m h = lookup-fan_out frame key ks m ∙ unsent (lookup key m)
    where
      unsent : (o : Option (Session F)) → Option.map (send_each frame key ks) o ≡ o
      unsent none = refl
      unsent (some s) = ap some (send_each_none frame key ks s h)

  module _ (u : Unicode) (execute : Renderer) (encode : Event → Option F) where
    carry_out_kept :
        (e : Event) (m : TextMap (Session F)) (x : Router × Result RouteError Plan) (key : Text)
        → ((p : Plan) → x.1 ≡ ok p → holds key p.targets ≡ false)
        → lookup key (carry_out u execute encode e m x).0.sessions ≡ lookup key m
    unfolding carry_out
    carry_out_kept e m (r, err _) key h = refl
    carry_out_kept e m (r, ok p) key h = elim (Bool-cases (is_empty_plan p)) [
      | inl nothing ↦ rw nothing refl
      | inr something ↦ elim (Bool-cases (is_empty p.targets)) [
        | inl no_server ↦ rw (something, no_server) refl
        | inr servers ↦
            rw (something, servers) (fan_out_kept (encode (relayed e)) key p.targets m (h p refl))
      ]
    ]

    origin_unreached :
        (r : Router) (now : ℕ) (e : Event) (connected : List Text) (p : Plan)
        → (route execute r now e connected).1 ≡ ok p
        → holds e.origin p.targets ≡ false
    origin_unreached r now e connected p h =
        let (ch, routable, _) = (route-eq-ok_iff execute r now e connected p).0 h in
        let reached = route_targets execute r now e connected p ch e.origin h routable.found in
        reached ∙ ground (arith, text_eq_refl e.origin)

    -- Nothing is put into the queue of the session that an event came from, and nothing else of
    -- that session is changed, whatever origin the event itself claims.
    pub on_event-sender :
        (h : Hub F) (now : ℕ) (s : Session F) (is_within_rate : Bool) (received : Option Event)
        → lookup s.server_key (on_event u execute encode h now s is_within_rate received).0.sessions
          ≡ lookup s.server_key h.sessions
    unfolding on_event publish cleaned
    on_event-sender h now s within none = refl
    on_event-sender h now s false (some e) = refl
    on_event-sender h now s true (some e) =
        let sent : Event =
          cleaned u (record e { origin = s.server_key; origin_name = s.short_name }) in
        carry_out_kept sent h.sessions (route execute h.router now sent (connected_keys h))
          s.server_key (λ p. origin_unreached h.router now sent (connected_keys h) p)

    unsent :
        (frame : F) (key : Text) (ks : List Text) (o : Option (Session F))
        → is_empty ks ≡ true
        → o ≡ Option.map (send_each frame key ks) o
    unfolding send_each
    unsent frame key [] o h = sym (map_same o)
    unsent frame key (k ∷ ks) o h = absurd (cc)

    no_targets : (p : Plan) → is_empty_plan p ≡ true → is_empty p.targets ≡ true
    unfolding is_empty_plan
    no_targets p h = ground arith

    carry_out-lookup :
        (e : Event) (m : TextMap (Session F)) (x : Router × Result RouteError Plan)
        → (p : Plan) (frame : F) (key : Text) → x.1 ≡ ok p
        → encode (relayed e) ≡ some frame
        → lookup key (carry_out u execute encode e m x).0.sessions
          ≡ Option.map (send_each frame key p.targets) (lookup key m)
    unfolding carry_out fan_out_encoded
    carry_out-lookup e m (r, err _) p frame key planned encoded = absurd (cc)
    carry_out-lookup e m (r, ok q) p frame key planned encoded =
        let same : q ≡ p = ground arith in
        rw same (elim (Bool-cases (is_empty_plan p)) [
          | inl nothing ↦
              rw nothing (unsent frame key p.targets (lookup key m) (no_targets p nothing))
          | inr something ↦ elim (Bool-cases (is_empty p.targets)) [
            | inl no_server ↦
                rw (something, no_server) (unsent frame key p.targets (lookup key m) no_server)
            | inr servers ↦ rw (something, servers, encoded) (lookup-fan_out frame key p.targets m)
          ]
        ])

    -- A published event that has a plan and a frame changes the sessions by the plan alone: each is
    -- sent the frame of the event, with one more hop, once for each time its key is among the
    -- targets.
    pub publish-delivers :
        (h : Hub F) (now : ℕ) (e : Event) (p : Plan) (frame : F) (key : Text)
        → (route execute h.router now (cleaned u e) (connected_keys h)).1 ≡ ok p
        → encode (relayed (cleaned u e)) ≡ some frame
        → lookup key (publish u execute encode h now e).0.sessions
          ≡ Option.map (send_each frame key p.targets) (lookup key h.sessions)
    unfolding publish
    publish-delivers h now e p frame key routed encoded =
        carry_out-lookup (cleaned u e) h.sessions
          (route execute h.router now (cleaned u e) (connected_keys h)) p frame key routed encoded
