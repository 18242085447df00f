-- ===== src/Agent/Enroll/Tests.antt =====
-- A hub whose certificate the operator confirms.
use talkeqidea.Common.{◌≡◌, refl, true, false, [], ◌∷◌, some, List, Text, codes, text_eq, ok}
use talkeqidea.Golang.Tables.{ascii_tables}
use talkeqidea.Golang.Strings.{to_lower, to_upper, trim_space}
use talkeqidea.Golang.Search.{replace_byte, has_prefix, after_prefix}
use talkeqidea.Relay.Frame.{Frame, new_frame, framed, decode}
use talkeqidea.Relay.Event.{FrameType}
use talkeqidea.Relay.EnrollCode.{normalize_enroll_code, validate_enroll_code}
use talkeqidea.Agent.Inbound.Tests.{fixed}
use talkeqidea.Agent.Enroll.{
  EnrollWorld, EnrollOptions, Peer, EnrollResult, enroll, enroll_from, prepare, dial, handshake,
  verify_peer, confirm_seen, ask, answered, enroll_frame, exchange, read_response, credentials,
  code_checked, dial_address, normalize_fingerprint,
}
use talkeqidea.Agent.Enroll.Trust.{IsTrusted, enroll-IsTrusted}

abbrev world : EnrollWorld
world = record {
  unicode = ascii_tables;
  fingerprint_of = λ cert. b'a' ∷ cert;
  enroll = fixed (record { protocol_version = 1; code = []; version = [] });
  enrolled = fixed (record { server_key = codes "east"; short_name = []; token = codes "t" });
  error = fixed (record { code = []; message = [] });
}

abbrev opts : EnrollOptions
opts = record {
  hub_address = codes ":34197";
  code = codes "ABCD-EFGH-JKLM";
  is_plaintext = false;
  expect_fingerprint = [];
  confirm_fingerprint = some (λ seen. ok true);
}

abbrev peer : Peer
peer = record {
  certificates = codes "c" ∷ [];
  is_reached = true;
  takes = true;
  response = some (record { frame_type = FrameType.enrolled; payload = codes "x" });
}

abbrev joined : EnrollResult
joined = record {
  server_key = codes "east";
  short_name = [];
  token = codes "t";
  fingerprint = codes "ac";
}

abbrev request : Frame
request = record { frame_type = FrameType.enroll; payload = codes "x" }

enrolled_east : enroll world opts peer ≡ (request ∷ [], ok joined)
unfolding enroll enroll_from prepare dial handshake verify_peer confirm_seen ask answered
    enroll_frame exchange read_response credentials code_checked dial_address normalize_fingerprint
    to_lower replace_byte trim_space has_prefix after_prefix new_frame framed decode
    validate_enroll_code normalize_enroll_code to_upper text_eq
enrolled_east = refl

enroll-IsTrusted_example :
    (cert : Text) × (rest : List Text) × (peer.certificates ≡ cert ∷ rest)
    × IsTrusted world opts (world.fingerprint_of cert)
enroll-IsTrusted_example =
    enroll-IsTrusted world opts peer request [] (ok joined) refl (λ cert. refl) enrolled_east
