-- ===== src/Client/Bound.antt =====
-- What an instance without the bot does: `disableHubOnlyServices` of client/client.go.
use talkeqidea.Common.{
  ℕ, ◌/◌, ◌≡◌, Bool, true, false, List, [], ◌∷◌, Option, Text, All, All-append, Result, ok, err,
  ok-injective, refl, ap, sym,
}
use talkeqidea.Hub.Core.{Hub}
use talkeqidea.Agent.Link.{Agent}
use talkeqidea.Config.Whole.{Config}
use talkeqidea.Requests.{Request, discord_send, telnet_send, api_command, relay_publish}
use talkeqidea.Discord.{Discord, DiscordError, check_ready, new_discord, send_checked}
use talkeqidea.Discord
use talkeqidea.Telnet.Console.{TelnetError}
use talkeqidea.Api.{Command, Commanded, ApiError}
use talkeqidea.Api
use talkeqidea.Client.{
  Client, World, Side, standalone, as_hub, as_agent, Output, posted, typed, posted_if, post,
  post_all, deliver, published, with_discord, queued, publish_at, on_relay_publish, on_message,
  typed_of, on_command, commanded, as_pairs, on_all, disable_hub_only_services,
}

-- A line on the console, rather than a message in a channel.
abbrev pub is_typed : Output → Bool
is_typed (posted channel message) = false
is_typed (typed line) = true

abbrev pub AreTyped : List Output → Type 0
AreTyped = All (λ o. is_typed o ≡ true)

-- Neither the bot nor the API is on.
abbrev pub IsBotless : {F N : Type 0} → Client F N → Type 0
IsBotless c = (c.discord.config.is_enabled ≡ false) × (c.config.api.is_enabled ≡ false)

typed_of-AreTyped : (r : Result TelnetError Text) → AreTyped (typed_of r)
unfolding typed_of
typed_of-AreTyped (err e) = tt
typed_of-AreTyped (ok line) = (refl, tt)

module _ {F : Type 0} (w : World F) where
  send_disabled :
      (d : Discord) (sent : Option (Text × Text))
      → d.config.is_enabled ≡ false
      → Discord.send d sent ≡ (d, false)
  unfolding Discord.send check_ready send_checked
  send_disabled d sent off = rw off

  post_disabled :
      (d : Discord) (channel message : Text)
      → d.config.is_enabled ≡ false
      → post w d channel message ≡ (d, [])
  unfolding post posted_if
  post_disabled d channel message off = rw (send_disabled d (w.sent channel message) off)

  post_all_disabled :
      (d : Discord) (sends : List (Text × Text))
      → d.config.is_enabled ≡ false
      → post_all w d sends ≡ (d, [])
  unfolding post_all
  post_all_disabled d [] off = refl
  post_all_disabled d ((channel, message) ∷ rest) off =
      rw (post_disabled d channel message off, post_all_disabled d rest off)

module _ {F N : Type 0} (w : World F) where
  with_discord_same :
      (c : Client F N) (made : Discord × List Output)
      → IsBotless c
      → made ≡ (c.discord, [])
      → IsBotless (with_discord w c made).0 × AreTyped (with_discord w c made).1
  unfolding with_discord
  with_discord_same c made botless same = rw same (botless, tt)

  published-AreTyped :
      (c : Client F N) (made : Hub F × List (Text × Text))
      → IsBotless c
      → IsBotless (published w c made).0 × AreTyped (published w c made).1
  unfolding published
  published-AreTyped c (h, sends) botless =
      with_discord_same (record c { side = as_hub h }) (post_all w c.discord sends) botless
        (post_all_disabled w c.discord sends botless.0)

  queued-AreTyped :
      (c : Client F N) (made : Agent × Bool)
      → IsBotless c
      → IsBotless (queued w c made).0 × AreTyped (queued w c made).1
  unfolding queued
  queued-AreTyped c (a, is_queued) botless = (botless, tt)

  publish_at-AreTyped :
      (c : Client F N) (side : Side F) (new_id : Text) (now : ℕ)
      (source channel name message : Text)
      → IsBotless c
      → IsBotless (publish_at w c side new_id now source channel name message).0
        × AreTyped (publish_at w c side new_id now source channel name message).1
  unfolding publish_at
  publish_at-AreTyped c standalone new_id now source channel name message botless = (botless, tt)
  publish_at-AreTyped c (as_hub h) new_id now source channel name message botless =
      published-AreTyped c _ botless
  publish_at-AreTyped c (as_agent a) new_id now source channel name message botless =
      queued-AreTyped c _ botless

  command_disabled :
      (c : Client F N) (req : Command) (now : ℕ)
      → c.config.api.is_enabled ≡ false
      → Api.command
          (deliver w)
          w.unicode
          w.title
          w.remaining
          c.config.api
          c.is_api_connected
          req
          now
          w.can_save
          c.discord
          c.registrations
        ≡ (
          record { discord = c.discord; registrations = c.registrations; sent = [] },
          err ApiError.not_enabled,
        )
  unfolding Api.command
  command_disabled c req now off = rw off

  on_command-AreTyped :
      (c : Client F N) (now : ℕ) (name channel id message : Text)
      → IsBotless c
      → IsBotless (on_command w c now name channel id message).0
        × AreTyped (on_command w c now name channel id message).1
  unfolding on_command commanded as_pairs post_all Api.snd_of
  on_command-AreTyped c now name channel id message botless =
      let refused =
        command_disabled c
          (record { name = name; name_id = id; channel_id = channel; message = message })
          (now / 1000000000) botless.1 in
      rw refused (botless, tt)

  on_message-AreTyped :
      (c : Client F N) (new_id : Text) (now : ℕ) (request : Request)
      → IsBotless c
      → IsBotless (on_message w c new_id now request).0
        × AreTyped (on_message w c new_id now request).1
  unfolding on_message on_relay_publish
  on_message-AreTyped c new_id now (discord_send channel message) botless =
      with_discord_same c (post w c.discord channel message) botless
        (post_disabled w c.discord channel message botless.0)
  on_message-AreTyped c new_id now (telnet_send line) botless = (botless, typed_of-AreTyped _)
  on_message-AreTyped c new_id now (api_command name channel id ign message) botless =
      on_command-AreTyped c now name channel id message botless
  on_message-AreTyped c new_id now (relay_publish source channel name message) botless =
      publish_at-AreTyped c c.side new_id now source channel name message botless

  on_all-AreTyped :
      (c : Client F N) (now : ℕ) (requests : List (Text × Request))
      → IsBotless c
      → AreTyped (on_all w c now requests).1
  unfolding on_all
  on_all-AreTyped c now [] botless = tt
  on_all-AreTyped c now ((new_id, request) ∷ rest) botless =
      let (botless', first) = on_message-AreTyped c new_id now request botless in
      All-append (λ o. is_typed o ≡ true) (on_message w c new_id now request).1 _ first
        (on_all-AreTyped (on_message w c new_id now request).0 now rest botless')

  api_disabled :
      (cfg : Config N) (c : Client F N)
      → c.config ≡ disable_hub_only_services cfg
      → c.config.api.is_enabled ≡ false
  unfolding disable_hub_only_services
  api_disabled cfg c h = ap (λ (c : Config N). c.api.is_enabled) h

  new_discord-config :
      (cfg : Config N) (d : Discord)
      → new_discord (disable_hub_only_services cfg).discord ≡ ok d
      → d.config.is_enabled ≡ false
  unfolding new_discord disable_hub_only_services
  new_discord-config cfg d h = ap (λ (d : Discord). d.config.is_enabled) (sym (ok-injective h))

  -- An instance whose configuration went through the switching off of what only a hub can do, and
  -- whose bot was made from it, posts nothing to Discord, whatever requests its endpoints hand over.
  pub agent_posts_nothing :
      (cfg : Config N) (c : Client F N) (now : ℕ) (requests : List (Text × Request))
      → c.config ≡ disable_hub_only_services cfg
      → new_discord (disable_hub_only_services cfg).discord ≡ ok c.discord
      → AreTyped (on_all w c now requests).1
  agent_posts_nothing cfg c now requests disabled made =
      on_all-AreTyped c now requests
        (new_discord-config cfg c.discord made, api_disabled cfg c disabled)
