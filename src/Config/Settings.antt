-- ===== src/Config/Settings.antt =====
-- config/config_relay.go: the settings of a hub and of an agent.
use talkeqidea.Common.{Bool, List, Option, Text, ℤ}

-- A parsed template is its text.
pub record HubChannel : Type 0 where
  pub name : Text
  pub is_enabled : Bool
  pub is_cross_server : Bool
  pub discord_channel_id : Text
  pub discord_pattern : Text
  pub discord_template : Option Text

pub record AgentChannel : Type 0 where
  pub name : Text
  pub is_enabled : Bool
  pub inbound_pattern : Text
  pub inbound_tmpl : Option Text

-- A `float64`, of which the checks ask its sign.
pub record Float : Type 1 where
  pub F : Type 0
  pub zero : F
  pub twenty : F
  pub is_zero : F → Bool
  pub is_negative : F → Bool

pub record HubLimits (F : Type 0) : Type 0 where
  pub max_agents : ℤ
  pub connections_per_minute : ℤ
  pub auth_failures_before_ban : ℤ
  pub ban_duration : Text
  pub messages_per_second : F
  pub message_burst : ℤ
  pub allowed_networks : List Text

pub record WebConfig : Type 0 where
  pub is_enabled : Bool
  pub listen : Text
  pub password_hash : Text

pub record HubConfig (F : Type 0) : Type 0 where
  pub listen : Text
  pub agents_database : Text
  pub enroll_database : Text
  pub tls_mode : Text
  pub tls_cert_path : Text
  pub tls_key_path : Text
  pub tls_domain : Text
  pub advertise_addr : Text
  pub local_server_key : Text
  pub local_short_name : Text
  pub heartbeat_secs : ℤ
  pub queue_size : ℤ
  pub limits : HubLimits F
  pub web : WebConfig
  pub channels : List HubChannel

pub record AgentConf : Type 0 where
  pub server_key : Text
  pub short_name : Text
  pub join_code : Text
  pub hub_address : Text
  pub token : Text
  pub fingerprint : Text
  pub is_plaintext : Bool
  pub channels : List AgentChannel

pub record RelayConfig (F : Type 0) : Type 0 where
  pub mode : Text
  pub hub : HubConfig F
  pub agent : AgentConf
