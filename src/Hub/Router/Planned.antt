-- ===== src/Hub/Router/Planned.antt =====
-- What `Route` plans: hub/router.go.
use talkeqidea.Common.{
  ℕ, ◌≡◌, ◌≢◌, ◌⊎◌, ◌↔◌, inl, inr, refl, ap, ◌∙◌, Bool, true, false, Bool-cases, not, ◌&&◌, ◌||◌,
  List, [], ◌∷◌, some, none, Option, arith, Text, is_empty, keep, text_eq, text_eq_iff, ok,
}
use talkeqidea.Relay.Event.{Event, Renderer, origin_discord, render}
use talkeqidea.Config.Settings.{HubChannel}
use talkeqidea.Hub.Router.{Router, Plan, deliver, discord_leg, target_keys, plan_for, route}
use talkeqidea.Hub.Router.Accepts.{IsRoutable, route-eq-ok_iff}

module _ (ch : HubChannel) (e : Event) where
  -- A server that is sent the event, if it is connected.
  pub record IsTarget (key : Text) : Type 0 where
    pub linked : (ch.is_cross_server ≡ true) ⊎ (e.origin ≡ origin_discord)
    pub elsewhere : key ≢ e.origin

  -- The targets among the connected servers, in their order.
  pub data Selects : List Text → List Text → Type 0 where
    nobody : Selects [] []
    chosen :
        (key : Text) (keys targets : List Text)
        → IsTarget key
        → Selects keys targets
        → Selects (key ∷ keys) (key ∷ targets)
    passed :
        (key : Text) (keys targets : List Text)
        → ¬ IsTarget key
        → Selects keys targets
        → Selects (key ∷ keys) targets

  abbrev is_target : Text → Bool
  is_target key =
      (ch.is_cross_server || text_eq e.origin origin_discord) && not (text_eq key e.origin)

  is_target-IsTarget : (key : Text) → is_target key ≡ true → IsTarget key
  is_target-IsTarget key h = record {
    linked = ground (arith, text_eq_iff e.origin origin_discord);
    elsewhere = ground (arith, text_eq_iff key e.origin);
  }

  not-IsTarget : (key : Text) → is_target key ≡ false → ¬ IsTarget key
  not-IsTarget key h t =
      let linked = t.linked in
      let elsewhere = t.elsewhere in
      ground (arith, text_eq_iff e.origin origin_discord, text_eq_iff key e.origin)

  Selects-kept : (keys : List Text) → Selects keys (keep is_target keys)
  Selects-kept [] = nobody
  Selects-kept (key ∷ keys) = elim (Bool-cases (is_target key)) [
    | inl there ↦
        rw there
          (chosen key keys (keep is_target keys) (is_target-IsTarget key there) (Selects-kept keys))
    | inr away ↦
        rw away (passed key keys (keep is_target keys) (not-IsTarget key away) (Selects-kept keys))
  ]

  kept-target_keys : (keys : List Text) → keep is_target keys ≡ target_keys ch e keys
  unfolding target_keys
  kept-target_keys [] = ground arith
  kept-target_keys (key ∷ keys) = ground (arith, kept-target_keys keys)

  Selects-target_keys : (keys : List Text) → Selects keys (target_keys ch e keys)
  Selects-target_keys keys = rw (← kept-target_keys keys) (Selects-kept keys)

  Selects-unique : (keys ts us : List Text) → Selects keys ts → Selects keys us → ts ≡ us
  Selects-unique [] [] [] nobody nobody = refl
  Selects-unique [] [] (u ∷ us) h k = elim k [ ]
  Selects-unique [] (t ∷ ts) us h k = elim h [ ]
  Selects-unique (key ∷ keys) _ _ (chosen _ _ ts yes_ h) (chosen _ _ us also k) =
      ap (λ l. key ∷ l) (Selects-unique keys ts us h k)
  Selects-unique (key ∷ keys) _ _ (chosen _ _ ts yes_ h) (passed _ _ us not_ k) = absurd (not_ yes_)
  Selects-unique (key ∷ keys) _ _ (passed _ _ ts not_ h) (chosen _ _ us yes_ k) = absurd (not_ yes_)
  Selects-unique (key ∷ keys) _ _ (passed _ _ ts not_ h) (passed _ _ us also k) =
      Selects-unique keys ts us h k

  -- What a plan holds for Discord: nothing where the channel has no Discord channel or the event came
  -- from there, or where the channel's template makes an empty text of it; else that text.
  pub data IsDelivered (execute : Renderer) (id msg : Text) : Type 0 where
    off :
        (ch.discord_channel_id ≡ []) ⊎ (e.origin ≡ origin_discord)
        → id ≡ []
        → msg ≡ []
        → IsDelivered execute id msg
    blank :
        ch.discord_channel_id ≢ []
        → e.origin ≢ origin_discord
        → render execute ch.discord_template e ch.discord_channel_id ≡ some []
        → id ≡ []
        → msg ≡ []
        → IsDelivered execute id msg
    posted :
        ch.discord_channel_id ≢ []
        → e.origin ≢ origin_discord
        → render execute ch.discord_template e ch.discord_channel_id ≡ some msg
        → msg ≢ []
        → id ≡ ch.discord_channel_id
        → IsDelivered execute id msg

  pub record IsPlanned (execute : Renderer) (connected : List Text) (plan : Plan) : Type 0 where
    pub targets : Selects connected plan.targets
    pub discord : IsDelivered execute plan.discord_channel_id plan.discord_message

is_empty-nil : (s : Text) → is_empty s ≡ true → s ≡ []
is_empty-nil [] h = refl
is_empty-nil (c ∷ s) h = absurd (cc)

nonempty-ne : (s : Text) → is_empty s ≡ false → s ≢ []
nonempty-ne [] h = absurd (cc)
nonempty-ne (c ∷ s) h = λ p. absurd (cc)

ne-nonempty : (s : Text) → s ≢ [] → is_empty s ≡ false
ne-nonempty [] h = absurd (h refl)
ne-nonempty (c ∷ s) h = refl

module _ (execute : Renderer) (ch : HubChannel) (e : Event) where
  deliver-IsDelivered :
      (id msg : Text) (rendered : Option Text)
      → ch.discord_channel_id ≢ []
      → e.origin ≢ origin_discord
      → render execute ch.discord_template e ch.discord_channel_id ≡ rendered
      → deliver ch rendered ≡ ok (id, msg)
      → IsDelivered ch e execute id msg
  unfolding deliver
  deliver-IsDelivered id msg none has elsewhere made h = absurd (cc)
  deliver-IsDelivered id msg (some text) has elsewhere made h = elim (Bool-cases (is_empty text)) [
    | inl empty ↦
        blank has elsewhere (made ∙ ap some (is_empty-nil text empty)) (ground arith) (ground arith)
    | inr full ↦
        let same : text ≡ msg = ground arith in
        posted has elsewhere (made ∙ ap some same) (rw (← same) (nonempty-ne text full))
          (ground arith)
  ]

  leg-IsDelivered :
      (id msg : Text) → discord_leg execute ch e ≡ ok (id, msg) → IsDelivered ch e execute id msg
  unfolding discord_leg
  leg-IsDelivered id msg h = elim (Bool-cases (is_empty ch.discord_channel_id)) [
    | inl nowhere ↦
        off (inl (is_empty-nil ch.discord_channel_id nowhere)) (ground arith) (ground arith)
    | inr somewhere ↦ elim (Bool-cases (text_eq e.origin origin_discord)) [
      | inl from ↦
          off (inr ((text_eq_iff e.origin origin_discord).0 from)) (ground arith) (ground arith)
      | inr elsewhere ↦
          deliver-IsDelivered id msg (render execute ch.discord_template e ch.discord_channel_id)
            (nonempty-ne ch.discord_channel_id somewhere)
            (ground (arith, text_eq_iff e.origin origin_discord)) refl (ground arith)
    ]
  ]

  IsDelivered-leg :
      (id msg : Text) → IsDelivered ch e execute id msg → discord_leg execute ch e ≡ ok (id, msg)
  unfolding discord_leg deliver
  IsDelivered-leg id msg (off (inl nowhere) i m) = rw (nowhere, i, m) refl
  IsDelivered-leg id msg (off (inr from) i m) = ground (arith, text_eq_iff e.origin origin_discord)
  IsDelivered-leg id msg (blank has elsewhere made i m) =
      rw made
        (ground (arith, text_eq_iff e.origin origin_discord, ne-nonempty ch.discord_channel_id has))
  IsDelivered-leg id msg (posted has elsewhere made full i) = rw made (
      ground (
        arith,
        text_eq_iff e.origin origin_discord,
        ne-nonempty ch.discord_channel_id has,
        ne-nonempty msg full,
      ))

  plan_for-IsPlanned :
      (connected : List Text) (plan : Plan)
      → plan_for execute ch e connected ≡ ok plan
      → IsPlanned ch e execute connected plan
  unfolding plan_for
  plan_for-IsPlanned connected plan h =
      let leg : discord_leg execute ch e ≡ ok (plan.discord_channel_id, plan.discord_message) =
        ground arith in
      let targets : target_keys ch e connected ≡ plan.targets = ground arith in
      record {
        targets = rw (← targets) (Selects-target_keys ch e connected);
        discord = leg-IsDelivered plan.discord_channel_id plan.discord_message leg;
      }

  IsPlanned-plan_for :
      (connected : List Text) (plan : Plan)
      → IsPlanned ch e execute connected plan
      → plan_for execute ch e connected ≡ ok plan
  unfolding plan_for
  IsPlanned-plan_for connected plan p =
      let leg = IsDelivered-leg plan.discord_channel_id plan.discord_message p.discord in
      let same =
        Selects-unique ch e connected (target_keys ch e connected) plan.targets
          (Selects-target_keys ch e connected) p.targets in
      rw (leg, same) refl

-- The event is routed to a plan exactly when it is valid, was not seen, was not relayed before, and
-- names a channel that is there and enabled; the plan's targets are, in their order, the connected
-- servers other than the origin where the channel links servers or the event came from Discord, and
-- none otherwise; and for Discord it has nothing where the channel has no Discord channel or the
-- event came from Discord, and else the channel's Discord channel with the text that its template
-- makes, or nothing where that text is empty. So there is no plan where the template fails.
pub route-IsPlanned :
    (execute : Renderer) (r : Router) (now : ℕ) (e : Event) (connected : List Text) (plan : Plan)
    → ((route execute r now e connected).1 ≡ ok plan)
      ↔ ((ch : HubChannel) × IsRoutable r now e ch × IsPlanned ch e execute connected plan)
route-IsPlanned execute r now e connected plan =
    let (only_if, if_) = route-eq-ok_iff execute r now e connected plan in
    (
      λ h.
          let (ch, routable, made) = only_if h in
          (ch, routable, plan_for-IsPlanned execute ch e connected plan made),
      λ h.
          let (ch, routable, planned) = h in
          if_ (ch, routable, IsPlanned-plan_for execute ch e connected plan planned),
    )
