-- ===== src/Telnet/Messages/Disabled.antt =====
-- The routes that parseMessage of telnet/telnet_msg.go takes.
use talkeqidea.Common.{
  ◌≡◌, Bool, not, ◌&&◌, List, [], ◌∷◌, Option, none, some, Text, codes, map, is_empty, length, ltb,
  ℤ, pos, negsuc, Bool-cases, inl, inr, Result, ok, err, ◌>>=◌, refuse_if, arith, refl, ap, ◌∙◌,
}
use talkeqidea.Golang.Search.{atoi, replace_all}
use talkeqidea.Config.Routes.{Route, TelnetConf, message_pattern_template, relay_channel}
use talkeqidea.Databases.Guilddb.{Guilds, channel_id}
use talkeqidea.Matching.{Engine, Stop, skipped, match_route, element, group, and_then, to_discord}
use talkeqidea.Telnet.Messages.{
  guild_channel, guild_found, guild_route, decorated, addressed, route_message, route_all,
  parse_message,
}

-- A route switched on or off.
abbrev pub switched : Bool → Route → Route
switched b r = record r { is_enabled = b }

abbrev switch_made : Bool → Result Stop Route → Result Stop Route
switch_made b (ok r) = ok (switched b r)
switch_made b (err e) = err e

guild_channel-switched :
    (b : Bool) (r : Route) (gid channel : Text)
    → guild_channel (switched b r) gid channel ≡ switch_made b (guild_channel r gid channel)
unfolding guild_channel
guild_channel-switched b r gid channel = ground arith

guild_found-switched :
    (b : Bool) (guilds : Guilds) (r : Route) (gid : Text) (id : Option ℤ)
    → guild_found guilds (switched b r) gid id ≡ switch_made b (guild_found guilds r gid id)
unfolding guild_found
guild_found-switched b guilds r gid none = refl
guild_found-switched b guilds r gid (some id) =
    guild_channel-switched b r gid (channel_id guilds id)

guild_element-switched :
    (b : Bool) (guilds : Guilds) (r : Route) (first : Result Stop Text)
    → (first >>= λ gid. guild_found guilds (switched b r) gid (atoi gid))
      ≡ switch_made b (first >>= λ gid. guild_found guilds r gid (atoi gid))
guild_element-switched b guilds r (ok gid) = guild_found-switched b guilds r gid (atoi gid)
guild_element-switched b guilds r (err e) = refl

guild_route-switched :
    (b : Bool) (guilds : Guilds) (m : List Text) (r : Route) (i : ℤ)
    → guild_route guilds m (switched b r) i ≡ switch_made b (guild_route guilds m r i)
unfolding guild_route
guild_route-switched b guilds m r (pos i) = elim (Bool-cases (ltb 0 i && ltb i (length m))) [
  | inl inside ↦ rw (inside) (guild_element-switched b guilds r (element m i))
  | inr outside ↦ rw (outside)
]
guild_route-switched b guilds m r (negsuc i) = refl

-- A chain whose steps agree.
>>=-same :
    {A B : Type 0} (f g : A → Result Stop B) (first : Result Stop A)
    → ((a : A) → f a ≡ g a)
    → (first >>= f) ≡ (first >>= g)
>>=-same f g (ok a) h = h a
>>=-same f g (err e) h = refl

module _ (e : Engine) (conf : TelnetConf) where
  addressed-switched :
      (b : Bool) (name message : Text) (made : Result Stop Route)
      → (switch_made b made >>= λ r. addressed e conf r name message)
        ≡ (made >>= λ r. addressed e conf r name message)
  unfolding addressed decorated message_pattern_template relay_channel to_discord
  addressed-switched b name message (ok r) = refl
  addressed-switched b name message (err why) = refl

  route_message-switched :
      (b : Bool) (guilds : Guilds) (msg : Text) (r : Route)
      → route_message e conf guilds msg (switched b r) ≡ route_message e conf guilds msg r
  unfolding route_message
  route_message-switched b guilds msg r =
      >>=-same _ _ (refuse_if (not (is_empty r.trigger.custom)) skipped) (λ _.
        >>=-same _ _ (match_route e r.trigger.regex msg) (λ m.
          >>=-same _ _ (group r.trigger.message_index m) (λ message.
            >>=-same _ _ (group r.trigger.name_index m) (λ name.
              ap (λ made. made >>= λ r'. addressed e conf r' name message)
                (guild_route-switched b guilds m r r.trigger.guild_index)
              ∙ addressed-switched b name message (guild_route guilds m r r.trigger.guild_index)))))

  route_all-switched :
      (on : Route → Bool) (guilds : Guilds) (msg : Text) (rs : List Route)
      → route_all e conf guilds msg (map (λ r. switched (on r) r) rs)
        ≡ route_all e conf guilds msg rs
  unfolding route_all
  route_all-switched on guilds msg [] = refl
  route_all-switched on guilds msg (r ∷ rest) =
      rw (route_message-switched (on r) guilds msg r, route_all-switched on guilds msg rest)

  -- Of the section the rounds read only the address of the profiles.
  route_all_of :
      (routes : List Route) (guilds : Guilds) (msg : Text) (rs : List Route)
      → route_all e (record conf { routes = routes }) guilds msg rs ≡ route_all e conf guilds msg rs
  unfolding route_all route_message addressed decorated
  route_all_of routes guilds msg [] = refl
  route_all_of routes guilds msg (r ∷ rest) =
      ap (and_then (route_message e conf guilds msg r)) (route_all_of routes guilds msg rest)

  -- Switching routes of the console on or off, in any way, changes nothing of what is made of a line.
  pub switched_all_same :
      (on : Route → Bool) (guilds : Guilds) (converted : Text)
      → parse_message e
          (record conf { routes = map (λ r. switched (on r) r) conf.routes })
          guilds
          converted
        ≡ parse_message e conf guilds converted
  unfolding parse_message
  switched_all_same on guilds converted =
      let msg = replace_all (codes "&PCT;") (codes "%") converted in
      route_all_of (map (λ r. switched (on r) r) conf.routes) guilds msg
        (map (λ r. switched (on r) r) conf.routes)
      ∙ route_all-switched on guilds msg conf.routes
