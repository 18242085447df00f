-- ===== src/Config/Relay/Tests.antt =====
-- Settings that leave most to the defaults.
use talkeqidea.Common.{
  ◌≡◌, refl, Bool, true, false, not, [], ◌∷◌, none, some, Text, codes, ok, ℤ, pos, negsuc, holds,
  text_eq, ltb,
}
use talkeqidea.Golang.Tables.{ascii_tables, ascii_tables-LowersAscii}
use talkeqidea.Sanitize.{server_key}
use talkeqidea.Config.Settings.{Float, HubLimits, HubConfig, HubChannel}
use talkeqidea.Config.Relay.{
  limit_or, rate_or_default, apply_defaults, verify_web, verify_tls, with_defaults, verify_channel,
  verify_channels, verify_hub, default_pattern, self_signed,
}
use talkeqidea.Config.Relay.Hub.{IsReady, verify_hub-IsReady}

-- Floats that are whole numbers.
abbrev pub whole : Float
whole = record {
  F = ℤ;
  zero = pos 0;
  twenty = pos 20;
  is_zero = λ (r : ℤ). elim r [ pos n ↦ not (ltb 0 n) | negsuc n ↦ false ];
  is_negative = λ (r : ℤ). elim r [ pos n ↦ false | negsuc n ↦ true ];
}

abbrev off : HubLimits ℤ
off = record {
  max_agents = negsuc 0;
  connections_per_minute = negsuc 0;
  auth_failures_before_ban = negsuc 0;
  ban_duration = [];
  messages_per_second = pos 0;
  message_burst = pos 0;
  allowed_networks = [];
}

abbrev pub raw : HubChannel
raw = record {
  name = codes " OOC";
  is_enabled = true;
  is_cross_server = true;
  discord_channel_id = [];
  discord_pattern = [];
  discord_template = none;
}

abbrev ooc : HubChannel
ooc = record raw {
  name = codes "ooc";
  discord_pattern = default_pattern;
  discord_template = some default_pattern;
}

abbrev accepting : Text → Bool
accepting pattern = true

accepted : verify_channels ascii_tables accepting [] (raw ∷ []) ≡ ok (ooc ∷ [])
unfolding verify_channels verify_channel server_key holds
accepted = refl

abbrev pub sparse : HubConfig ℤ
sparse = record {
  listen = [];
  agents_database = [];
  enroll_database = [];
  tls_mode = [];
  tls_cert_path = [];
  tls_key_path = [];
  tls_domain = [];
  advertise_addr = [];
  local_server_key = [];
  local_short_name = [];
  heartbeat_secs = negsuc 3;
  queue_size = pos 8;
  limits = off;
  web = record { is_enabled = false; listen = []; password_hash = [] };
  channels = raw ∷ [];
}

abbrev filled : HubConfig ℤ
filled = record sparse {
  listen = codes ":34197";
  agents_database = codes "modern-eq-chat-agents.json";
  enroll_database = codes "modern-eq-chat-enroll.json";
  tls_mode = self_signed;
  tls_cert_path = codes "modern-eq-chat-cert.pem";
  tls_key_path = codes "modern-eq-chat-key.pem";
  advertise_addr = codes ":34197";
  heartbeat_secs = pos 30;
  queue_size = pos 256;
  limits = apply_defaults whole off;
  channels = ooc ∷ [];
}

verify_hub-IsReady_example : IsReady whole ascii_tables accepting filled
unfolding verify_hub verify_web verify_tls with_defaults apply_defaults limit_or rate_or_default
    verify_channels verify_channel server_key holds text_eq
verify_hub-IsReady_example =
    verify_hub-IsReady whole ascii_tables accepting ascii_tables-LowersAscii sparse filled refl
