-- ===== src/Agent/Reconnect.antt =====
-- agent/agent.go: how an agent finds its hub again, and how it knows the hub. Times are seconds.
pub mod Backoff
pub mod Pin
mod Tests
use talkeqidea.Common.{
  ℕ, ◌*◌, ◌≡◌, Bool, true, false, not, ◌&&◌, List, [], ◌∷◌, ◌++◌, Option, none, some, Text, codes,
  keep, map, is_empty, length, ltb, ◌==◌, text_eq, if◌then◌else◌, Result, ok, err, refuse_if,
  or_refuse, ◌>>=◌, ◌>>◌,
}
use talkeqidea.Golang.Strings.{Unicode, to_lower}
use talkeqidea.Config.Settings.{AgentConf}
use talkeqidea.Relay.Event.{FrameType, protocol_version}
use talkeqidea.Relay.Frame.{Frame, Codecs, Hello, RelayError, Welcome, decode, new_frame}
use talkeqidea.Agent.Link.{Agent}

abbrev pub min_backoff : ℕ
min_backoff = 2

abbrev pub max_backoff : ℕ
max_backoff = 60

-- What one call of `session` and the line after it leave: the flag is set where the handshake
-- succeeded, and cleared when the call returns.
unfoldable pub session_over : Agent → Bool → Agent
session_over a has_connected =
    let during = if has_connected then record a { is_connected = true } else a in
    record during { is_connected = false }

-- The end of one round of `loop`.
unfoldable pub next_backoff : Agent → ℕ → ℕ
next_backoff a backoff =
    if a.is_connected
    then min_backoff
    else if ltb max_backoff (backoff * 2)
    then max_backoff
    else backoff * 2

-- The rounds of `loop`: for each session, whether its handshake succeeded. The result is the wait
-- before the next attempt but one.
unfoldable pub rounds : Agent → ℕ → List Bool → ℕ
rounds a backoff [] = backoff
rounds a backoff (has_connected ∷ rest) =
    let after = session_over a has_connected in rounds after (next_backoff after backoff) rest

unfoldable pub loop : Agent → List Bool → ℕ
loop a sessions = rounds a min_backoff sessions

-- The heartbeat that `session` takes from a welcome.
unfoldable pub heartbeat_of : Welcome → ℕ
heartbeat_of w = if ltb w.heartbeat_secs 5 then 30 else w.heartbeat_secs

pub data HandshakeError : Type 0 where
  rejected : HandshakeError
  rejected_because : RelayError → HandshakeError
  unexpected : FrameType → HandshakeError
  undecodable not_encoded broken : HandshakeError

unfoldable pub rejection : Option RelayError → HandshakeError
rejection none = rejected
rejection (some why) = rejected_because why

-- The answer to a hello, the end of `handshake`.
unfoldable pub welcome_of : Codecs → FrameType → Frame → Result HandshakeError Welcome
welcome_of c FrameType.error frame = err (rejection (decode c.error frame))
welcome_of c FrameType.welcome frame = or_refuse (decode c.welcome frame) undecodable
welcome_of c t frame = err (unexpected t)

unfoldable pub hello_of : AgentConf → Hello
hello_of cfg = record {
  protocol_version = protocol_version;
  server_key = cfg.server_key;
  token = cfg.token;
  version = [];
  channels = map (λ ch. ch.name) cfg.channels;
}

-- `exchange` writes a frame and reads the next one, and fails where either does.
unfoldable pub handshake :
    Codecs → AgentConf → (Frame → Option Frame) → Result HandshakeError Welcome
handshake c cfg exchange = do
  frame ← or_refuse (new_frame c.hello FrameType.hello (hello_of cfg)) not_encoded
  reply ← or_refuse (exchange frame) broken
  welcome_of c reply.frame_type reply

-- The host that `dial` dials.
unfoldable pub dial_host : Text → Text
dial_host [] = []
dial_host (c ∷ address) = if c == b':' then codes "127.0.0.1" ++ c ∷ address else c ∷ address

-- Packages crypto/sha256 and encoding/hex.
pub record Digests : Type 0 where
  pub sha256 : Text → Text
  pub hex : Text → Text
  pub is_hex : Text → Bool

-- What `tlsConfig` makes: the library's own verification, or a check of one digest.
pub data Verification : Type 0 where
  public_trust : Verification
  pinned : Text → Verification

pub data PinError : Type 0 where
  malformed_fingerprint no_certificate wrong_certificate : PinError

unfoldable pub digits : Unicode → Text → Text
digits u fingerprint = to_lower u (keep (λ c. not (c == b':')) fingerprint)

module _ (d : Digests) where
  unfoldable pub pin : Text → Result PinError Verification
  pin want =
      if d.is_hex want && length want == 64 then ok (pinned want) else err malformed_fingerprint

  unfoldable pub tls_config : Unicode → Text → Result PinError Verification
  tls_config u fingerprint =
      if is_empty fingerprint then ok public_trust else pin (digits u fingerprint)

  -- `VerifyPeerCertificate` of a pinned configuration.
  unfoldable pub verify_peer : Text → List Text → Result PinError (Unit {0})
  verify_peer want [] = err no_certificate
  verify_peer want (cert ∷ chain) =
      refuse_if (not (text_eq (d.hex (d.sha256 cert)) want)) wrong_certificate
