-- ===== src/Config/Relay.antt =====
-- config/config_relay.go: the settings of a hub and of an agent, and their checks.
pub mod Channels
pub mod Hub
pub mod Limits
pub mod Tests
use talkeqidea.Common.{
  ℕ, ◌≡◌, Bool, true, false, not, ◌&&◌, ◌||◌, List, [], ◌∷◌, Option, none, some, Text, codes, holds,
  is_empty, text_eq, ltb, ◌==◌, if◌then◌else◌, Result, ok, err, refuse_if, or_refuse, ◌>>=◌, ◌>>◌,
  ℤ, pos, negsuc, lt_nat,
}
use talkeqidea.Golang.Strings.{Unicode}
use talkeqidea.Sanitize.{server_key}
use talkeqidea.Relay.Event.{origin_discord}
use talkeqidea.Config.Settings.{
  HubChannel, AgentChannel, Float, HubLimits, WebConfig, HubConfig, AgentConf, RelayConfig,
}
use talkeqidea.Relay.JoinCode.{JoinCode, JoinCodeError}

pub data ConfigError : Type 0 where
  no_password reserved_key no_cert no_domain unknown_tls_mode unknown_mode : ConfigError
  no_server_key no_hub_address no_token : ConfigError
  name_empty : ConfigError
  defined_twice bad_pattern no_pattern : Text → ConfigError
  bad_join_code : JoinCodeError → ConfigError

-- `if s == "" { s = d }`.
abbrev pub default_to : Text → Text → Text
default_to d s = if is_empty s then d else s

-- `if n == 0 { n = d } else if n < 0 { n = 0 }`.
unfoldable pub limit_or : ℕ → ℤ → ℤ
limit_or d (pos n) = if n == 0 then pos d else pos n
limit_or d (negsuc n) = pos 0

-- `if n < least { n = d }`.
abbrev pub at_least_or : ℕ → ℕ → ℤ → ℤ
at_least_or least d n = if lt_nat n least then pos d else n

module _ (f : Float) where
  open f use {F}

  unfoldable pub rate_or_default : F → F
  rate_or_default r = if f.is_zero r then f.twenty else if f.is_negative r then f.zero else r

  unfoldable pub apply_defaults : HubLimits F → HubLimits F
  apply_defaults c = record c {
    max_agents = limit_or 64 c.max_agents;
    connections_per_minute = limit_or 30 c.connections_per_minute;
    auth_failures_before_ban = limit_or 5 c.auth_failures_before_ban;
    messages_per_second = rate_or_default c.messages_per_second;
    message_burst = at_least_or 1 40 c.message_burst;
    ban_duration = default_to (codes "15m") c.ban_duration;
  }

unfoldable pub verify_web : WebConfig → Result ConfigError WebConfig
verify_web c =
    if c.is_enabled
    then (if is_empty c.password_hash
        then err no_password
        else ok (record c { listen = default_to (codes "127.0.0.1:34198") c.listen }))
    else ok c

-- The pattern of a channel that has none.
abbrev pub default_pattern : Text
default_pattern = codes "**[{{.OriginName}}]** {{.Name}}: {{.Message}}"

-- The TLS modes.
abbrev pub self_signed : Text
self_signed = codes "self-signed"

abbrev pub lets_encrypt : Text
lets_encrypt = codes "letsencrypt"

abbrev pub tls_file : Text
tls_file = codes "file"

abbrev pub tls_none : Text
tls_none = codes "none"

-- The switch over the TLS mode.
unfoldable pub verify_tls : {F : Type 0} → HubConfig F → Result ConfigError (HubConfig F)
verify_tls c =
    if text_eq c.tls_mode self_signed
    then ok (record c {
      tls_cert_path = default_to (codes "modern-eq-chat-cert.pem") c.tls_cert_path;
      tls_key_path = default_to (codes "modern-eq-chat-key.pem") c.tls_key_path;
    })
    else if text_eq c.tls_mode tls_file
    then (if is_empty c.tls_cert_path || is_empty c.tls_key_path then err no_cert else ok c)
    else if text_eq c.tls_mode lets_encrypt
    then (if is_empty c.tls_domain then err no_domain else ok c)
    else if text_eq c.tls_mode tls_none
    then ok c
    else err unknown_tls_mode

-- The fields that take a default before anything is checked.
unfoldable pub with_defaults : (f : Float) → HubConfig f.F → HubConfig f.F
with_defaults f c = record c {
  listen = default_to (codes ":34197") c.listen;
  agents_database = default_to (codes "modern-eq-chat-agents.json") c.agents_database;
  enroll_database = default_to (codes "modern-eq-chat-enroll.json") c.enroll_database;
  tls_mode = default_to self_signed c.tls_mode;
  heartbeat_secs = at_least_or 5 30 c.heartbeat_secs;
  queue_size = at_least_or 16 256 c.queue_size;
  limits = apply_defaults f c.limits;
}

-- `parses` is whether `template.Parse` accepts a pattern.
module _ (u : Unicode) (parses : Text → Bool) where
  -- One round of the loop over the hub's channels, and the names seen before it.
  unfoldable pub verify_channel : List Text → HubChannel → Result ConfigError HubChannel
  verify_channel seen ch = do
    let name = server_key u ch.name
    let pattern = default_to default_pattern ch.discord_pattern
    refuse_if (is_empty name) name_empty
    refuse_if (holds name seen) (defined_twice name)
    refuse_if (not (parses pattern)) (bad_pattern name)
    ok (record ch { name = name; discord_pattern = pattern; discord_template = some pattern })

  unfoldable pub verify_channels :
      List Text → List HubChannel → Result ConfigError (List HubChannel)
  verify_channels seen [] = ok []
  verify_channels seen (ch ∷ rest) = do
    ch' ← verify_channel seen ch
    rest' ← verify_channels (ch'.name ∷ seen) rest
    ok (ch' ∷ rest')

  unfoldable pub verify_hub : (f : Float) → HubConfig f.F → Result ConfigError (HubConfig f.F)
  verify_hub f c0 = do
    let c1 = with_defaults f c0
    web ← verify_web c1.web
    let key = server_key u c1.local_server_key
    refuse_if (text_eq key origin_discord) reserved_key
    c2 ← verify_tls (record c1 {
      web = web;
      advertise_addr = default_to c1.listen c1.advertise_addr;
      local_server_key = key;
      local_short_name =
          if is_empty key then c1.local_short_name else default_to key c1.local_short_name;
    })
    channels ← verify_channels [] c2.channels
    ok (record c2 { channels = channels })

  -- The same loop of an agent, where a channel that is off is not looked at further.
  unfoldable pub verify_agent_channel : List Text → AgentChannel → Result ConfigError AgentChannel
  verify_agent_channel seen ch = do
    let name = server_key u ch.name
    refuse_if (is_empty name) name_empty
    refuse_if (holds name seen) (defined_twice name)
    refuse_if (ch.is_enabled && is_empty ch.inbound_pattern) (no_pattern name)
    refuse_if (ch.is_enabled && not (parses ch.inbound_pattern)) (bad_pattern name)
    ok (record ch {
      name = name;
      inbound_tmpl = if ch.is_enabled then some ch.inbound_pattern else ch.inbound_tmpl;
    })

  unfoldable pub verify_agent_channels :
      List Text → List AgentChannel → Result ConfigError (List AgentChannel)
  verify_agent_channels seen [] = ok []
  verify_agent_channels seen (ch ∷ rest) = do
    ch' ← verify_agent_channel seen ch
    rest' ← verify_agent_channels (ch'.name ∷ seen) rest
    ok (ch' ∷ rest')

  -- A join code fills in what it carries.
  unfoldable pub joined : AgentConf → Result JoinCodeError JoinCode → Result ConfigError AgentConf
  joined c (err why) = err (bad_join_code why)
  joined c (ok code) = ok (record c {
    hub_address = code.address;
    token = code.token;
    fingerprint = code.fingerprint;
    server_key = default_to code.server_key c.server_key;
  })

  unfoldable pub join :
      (Text → Result JoinCodeError JoinCode) → AgentConf → Result ConfigError AgentConf
  join parse c = if is_empty c.join_code then ok c else joined c (parse c.join_code)

  unfoldable pub verify_agent :
      (Text → Result JoinCodeError JoinCode) → AgentConf → Result ConfigError AgentConf
  verify_agent parse c0 = do
    c ← join parse c0
    let key = server_key u c.server_key
    refuse_if (is_empty key) no_server_key
    refuse_if (is_empty c.hub_address) no_hub_address
    refuse_if (is_empty c.token) no_token
    channels ← verify_agent_channels [] c.channels
    ok (record c {
      server_key = key;
      short_name = default_to key c.short_name;
      channels = channels;
    })

  -- `Relay.Verify`.
  unfoldable pub verify_mode :
      (f : Float)
      → (Text → Result JoinCodeError JoinCode)
      → RelayConfig f.F
      → Result ConfigError (RelayConfig f.F)
  verify_mode f parse c =
      if text_eq c.mode (codes "standalone")
      then ok c
      else if text_eq c.mode (codes "hub")
      then (do hub ← verify_hub f c.hub; ok (record c { hub = hub }))
      else if text_eq c.mode (codes "agent")
      then (do agent ← verify_agent parse c.agent; ok (record c { agent = agent }))
      else err unknown_mode

  unfoldable pub verify :
      (f : Float)
      → (Text → Result JoinCodeError JoinCode)
      → RelayConfig f.F
      → Result ConfigError (RelayConfig f.F)
  verify f parse c =
      verify_mode f parse (record c { mode = default_to (codes "standalone") c.mode })

-- `HubConfig.Channel` and `AgentConf.Channel`.
unfoldable pub find_hub_channel : Text → List HubChannel → Option HubChannel
find_hub_channel name [] = none
find_hub_channel name (ch ∷ rest) =
    if text_eq ch.name name then some ch else find_hub_channel name rest

unfoldable pub find_agent_channel : Text → List AgentChannel → Option AgentChannel
find_agent_channel name [] = none
find_agent_channel name (ch ∷ rest) =
    if text_eq ch.name name then some ch else find_agent_channel name rest
