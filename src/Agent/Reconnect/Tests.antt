-- ===== src/Agent/Reconnect/Tests.antt =====
-- Seven sessions, each of which connects; and a hub with a pinned certificate.
use talkeqidea.Common.{
  ◌*◌, ◌^◌, ◌≡◌, ◌↔◌, inl, inr, refl, Bool, true, false, List, [], ◌∷◌, Text, codes, length, ok,
}
use talkeqidea.Golang.Tables.{ascii_tables, ascii_tables-LowersAscii}
use talkeqidea.Golang.Strings.{to_lower}
use talkeqidea.Config.Settings.{AgentConf}
use talkeqidea.Agent.Link.{new_agent}
use talkeqidea.Agent.Reconnect.{
  Digests, min_backoff, max_backoff, rounds, next_backoff, session_over, loop, digits, pin,
  tls_config, verify_peer,
}
use talkeqidea.Agent.Reconnect.Backoff.{at_most_a_minute, loop_doubled}
use talkeqidea.Agent.Reconnect.Pin.{Writes, colon, digit, lower_digits-Writes, verify_peer-Writes}

abbrev conf : AgentConf
conf = record {
  server_key = codes "east";
  short_name = codes "East";
  join_code = [];
  hub_address = [];
  token = [];
  fingerprint = [];
  is_plaintext = false;
  channels = [];
}

abbrev sessions : List Bool
sessions = true ∷ true ∷ true ∷ true ∷ true ∷ true ∷ true ∷ []

a_minute_in_the_end : loop (new_agent conf) sessions ≡ max_backoff
unfolding loop rounds next_backoff session_over
a_minute_in_the_end = refl

loop_doubled_example :
    loop (new_agent conf) sessions ≡ at_most_a_minute (min_backoff * 2 ^ length sessions)
loop_doubled_example = loop_doubled (new_agent conf) sessions

abbrev sha : Text
sha = codes "0a23456789abcdef0123456789abcdef0123456789abcdef0123456789abcdef"

-- Every text has this digest.
abbrev one_digest : Digests
one_digest = record { sha256 = λ s. sha; hex = λ s. s; is_hex = λ s. true }

abbrev tail : Text
tail = codes "23456789abcdef0123456789abcdef0123456789abcdef0123456789abcdef"

-- A fingerprint with a capital and a colon.
abbrev written : Text
written = b'0' ∷ b':' ∷ b'A' ∷ tail

written-Writes : Writes written sha
written-Writes = digit b'0' b'0' (b':' ∷ b'A' ∷ tail) (b'a' ∷ tail) (inl (refl, refl)) (
    colon b':' (b'A' ∷ tail) (b'a' ∷ tail) refl
      (digit b'A' b'a' tail tail (inr (refl, refl)) (lower_digits-Writes tail refl)))

verify_peer-Writes_example : (verify_peer one_digest sha (codes "cert" ∷ []) ≡ ok tt) ↔ (sha ≡ sha)
unfolding tls_config pin digits to_lower
verify_peer-Writes_example =
    verify_peer-Writes one_digest ascii_tables written sha sha (codes "cert") []
      ascii_tables-LowersAscii written-Writes refl
