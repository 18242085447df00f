-- ===== src/Config/Routes/Loaded.antt =====
-- What the check of the routes in the configuration leaves behind: config/route.go.
use talkeqidea.Common.{
  ◌≡◌, ◌⊎◌, inl, inr, Bool, true, false, List, [], ◌∷◌, some, Text, is_empty, All, Result, ok,
  Bool-cases, ok-injective, ◌>>=◌, >>=-eq-ok, arith, refl, ◌∙◌, sym,
}
use talkeqidea.Config.Routes.{
  Route, RouteError, load_message_pattern, verify_route, verify_routes, EqLogConf, verify_eqlog,
  TelnetConf, verify_telnet, DiscordRoute, DiscordConf, verify_discord, verify_discord_route,
  verify_discord_routes,
}

-- A route that is enabled has a channel and a template.
abbrev pub IsLoaded : Route → Type 0
IsLoaded r =
    (r.is_enabled ≡ false)
    ⊎ ((is_empty r.channel_id ≡ false) × (r.template ≡ some r.message_pattern))

abbrev pub IsReady : DiscordRoute → Type 0
IsReady r = (is_empty r.channel_id ≡ false) × (r.template ≡ some r.message_pattern)

module _ (parses : Text → Bool) where
  load_message_pattern-IsLoaded :
      (r r' : Route)
      → is_empty r.channel_id ≡ false
      → load_message_pattern parses r ≡ ok r'
      → IsLoaded r'
  unfolding load_message_pattern
  load_message_pattern-IsLoaded r r' has_channel h = elim (Bool-cases r.is_enabled) [
    | inl on ↦ elim (Bool-cases (parses r.message_pattern)) [
      | inl good ↦
          (let made : record r { template = some r.message_pattern } ≡ r' =
              ok-injective (sym (rw (on, good)) ∙ h) in
            rw (← made) (inr (has_channel, refl)))
      | inr bad ↦ absurd (ground arith)
    ]
    | inr off ↦
        (let kept : load_message_pattern parses r ≡ ok r = rw off in
          let same : r ≡ r' = ok-injective (sym kept ∙ h) in rw (← same) (inl off))
  ]

  verify_route-IsLoaded : (r r' : Route) → verify_route parses r ≡ ok r' → IsLoaded r'
  unfolding verify_route
  verify_route-IsLoaded r r' h = elim (Bool-cases (is_empty r.channel_id)) [
    | inl none_given ↦ absurd (ground arith)
    | inr given ↦ load_message_pattern-IsLoaded r r' given (ground arith)
  ]

  pub verify_routes-AreLoaded :
      (rs rs' : List Route) → verify_routes parses rs ≡ ok rs' → All IsLoaded rs'
  unfolding verify_routes
  verify_routes-AreLoaded [] [] h = tt
  verify_routes-AreLoaded [] (x ∷ xs) h = absurd (cc)
  verify_routes-AreLoaded (r ∷ rest) out h =
      let (r', h1, made) = >>=-eq-ok _ (verify_route parses r) h in
      let (rest', h2, later) = >>=-eq-ok _ (verify_routes parses rest) h1 in
      rw (← ok-injective h2)
        (verify_route-IsLoaded r r' made, verify_routes-AreLoaded rest rest' later)

  -- The section of the logs, with its routes.
  pub verify_eqlog-AreLoaded :
      (c c' : EqLogConf)
      → c.is_enabled ≡ true
      → verify_eqlog parses c ≡ ok c'
      → All IsLoaded c'.routes
  unfolding verify_eqlog
  verify_eqlog-AreLoaded c c' on accepted =
      let with_routes : List Route → Result RouteError EqLogConf =
        (λ routes. ok (record c { routes = routes })) in
      let opened : verify_eqlog parses c ≡ (verify_routes parses c.routes >>= with_routes) =
        rw on in
      let (routes, h, verified) =
        >>=-eq-ok with_routes (verify_routes parses c.routes) (sym opened ∙ accepted) in
      let made : record c { routes = routes } ≡ c' = ok-injective h in
      rw (← made) (verify_routes-AreLoaded c.routes routes verified)

  -- The section of the console; one that is off is left as it is.
  pub verify_telnet-AreLoaded :
      (c c' : TelnetConf)
      → verify_telnet parses c ≡ ok c'
      → (c'.is_enabled ≡ false) ⊎ All IsLoaded c'.routes
  unfolding verify_telnet
  verify_telnet-AreLoaded c c' accepted = elim (Bool-cases c.is_enabled) [
    | inl on ↦
        (let with_routes : List Route → Result RouteError TelnetConf =
            (λ routes. ok (record c { routes = routes })) in
          let opened : verify_telnet parses c ≡ (verify_routes parses c.routes >>= with_routes) =
            rw on in
          let (routes, h, verified) =
            >>=-eq-ok with_routes (verify_routes parses c.routes) (sym opened ∙ accepted) in
          let made : record c { routes = routes } ≡ c' = ok-injective h in
          rw (← made) (inr (verify_routes-AreLoaded c.routes routes verified)))
    | inr off ↦
        (let kept : verify_telnet parses c ≡ ok c = rw off in
          let same : c ≡ c' = ok-injective (sym kept ∙ accepted) in rw (← same) (inl off))
  ]

  -- A route from Discord has a channel and a template whether or not it is enabled.
  verify_discord_route-ready :
      (r r' : DiscordRoute) → verify_discord_route parses r ≡ ok r' → IsReady r'
  unfolding verify_discord_route
  verify_discord_route-ready r r' h = elim (Bool-cases (is_empty r.channel_id)) [
    | inl none_given ↦ absurd (ground arith)
    | inr given ↦ elim (Bool-cases (parses r.message_pattern)) [
      | inl good ↦
          (let opened : verify_discord_route parses r
                ≡ ok (record r { template = some r.message_pattern }) =
              rw (given, good) in
            let made : record r { template = some r.message_pattern } ≡ r' =
              ok-injective (sym opened ∙ h) in
            rw (← made) (given, refl))
      | inr bad ↦ absurd (ground arith)
    ]
  ]

  pub verify_discord_routes-ready :
      (rs rs' : List DiscordRoute) → verify_discord_routes parses rs ≡ ok rs' → All IsReady rs'
  unfolding verify_discord_routes
  verify_discord_routes-ready [] [] h = tt
  verify_discord_routes-ready [] (x ∷ xs) h = absurd (cc)
  verify_discord_routes-ready (r ∷ rest) out h =
      let (r', h1, made) = >>=-eq-ok _ (verify_discord_route parses r) h in
      let (rest', h2, later) = >>=-eq-ok _ (verify_discord_routes parses rest) h1 in
      rw (← ok-injective h2)
        (verify_discord_route-ready r r' made, verify_discord_routes-ready rest rest' later)

  pub verify_discord-ready :
      (c c' : DiscordConf)
      → verify_discord parses c ≡ ok c'
      → (c'.is_enabled ≡ false) ⊎ All IsReady c'.routes
  unfolding verify_discord
  verify_discord-ready c c' accepted = elim (Bool-cases c.is_enabled) [
    | inl on ↦
        (let with_routes : List DiscordRoute → Result RouteError DiscordConf =
            (λ routes. ok (record c { routes = routes })) in
          let opened : verify_discord parses c
              ≡ (verify_discord_routes parses c.routes >>= with_routes) =
            rw on in
          let (routes, h, verified) =
            >>=-eq-ok with_routes (verify_discord_routes parses c.routes) (sym opened ∙ accepted) in
          let made : record c { routes = routes } ≡ c' = ok-injective h in
          rw (← made) (inr (verify_discord_routes-ready c.routes routes verified)))
    | inr off ↦
        (let kept : verify_discord parses c ≡ ok c = rw off in
          let same : c ≡ c' = ok-injective (sym kept ∙ accepted) in rw (← same) (inl off))
  ]
