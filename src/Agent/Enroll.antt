-- ===== src/Agent/Enroll.antt =====
-- agent/enroll.go: an agent exchanges a code for its token. TLS and the socket are parameters.
pub mod Trust
mod Tests
use talkeqidea.Common.{
  ℕ, ◌≡◌, Bool, true, false, not, ◌&&◌, ◌||◌, List, [], ◌∷◌, ◌++◌, Option, none, some, Text, codes,
  is_empty, text_eq, if◌then◌else◌, Result, ok, err, ◌>>=◌, ◌>>◌, refuse_if, or_refuse,
}
use talkeqidea.Golang.Strings.{Unicode, trim_space, to_lower}
use talkeqidea.Golang.Search.{has_prefix, replace_byte}
use talkeqidea.Relay.Event.{FrameType, protocol_version}
use talkeqidea.Relay.Frame.{Frame, Json, RelayError, new_frame, decode}
use talkeqidea.Relay.EnrollCode.{normalize_enroll_code, validate_enroll_code}
use talkeqidea.Hub.Enrollment.{Enroll}

-- `relay.Enrolled`.
pub record Enrolled : Type 0 where
  pub server_key : Text
  pub short_name : Text
  pub token : Text

pub record EnrollResult : Type 0 where
  pub server_key : Text
  pub short_name : Text
  pub token : Text
  pub fingerprint : Text

-- What the operator answers to a fingerprint: an error, or whether it is right.
abbrev pub Confirm : Type 0
Confirm = Text → Result Text Bool

pub record EnrollOptions : Type 0 where
  pub hub_address : Text
  pub code : Text
  pub is_plaintext : Bool
  pub expect_fingerprint : Text
  pub confirm_fingerprint : Option Confirm

pub data EnrollError : Type 0 where
  bad_code : ℕ → EnrollError
  no_address no_certificate wrong_fingerprint not_confirmed no_connection : EnrollError
  confirm_failed : Text → EnrollError
  not_encoded not_sent no_response : EnrollError
  rejected : Option Text → EnrollError
  unexpected : FrameType → EnrollError
  not_decoded incomplete : EnrollError

-- `fingerprint_of` is the SHA-256 of a certificate in hexadecimal.
pub record EnrollWorld : Type 0 where
  pub unicode : Unicode
  pub fingerprint_of : Text → Text
  pub enroll : Json Enroll
  pub enrolled : Json Enrolled
  pub error : Json RelayError

-- The other end: the certificates it presents, whether the connection then stands, whether it takes
-- a frame, and the frame that it sends.
pub record Peer : Type 0 where
  pub certificates : List Text
  pub is_reached : Bool
  pub takes : Bool
  pub response : Option Frame

unfoldable pub normalize_fingerprint : Unicode → Text → Text
normalize_fingerprint u fp = to_lower u (replace_byte b':' [] (trim_space fp))

-- Where the agent dials.
unfoldable pub dial_address : Text → Text
dial_address address =
    if has_prefix (codes ":") address then codes "127.0.0.1" ++ address else address

unfoldable pub code_checked : Result ℕ (Unit {0}) → Result EnrollError (Unit {0})
code_checked (err n) = err (bad_code n)
code_checked (ok _) = ok tt

module _ (w : EnrollWorld) where
  -- `VerifyPeerCertificate`: the fingerprint that was seen.
  unfoldable pub verify_peer : Text → List Text → Result EnrollError Text
  verify_peer want [] = err no_certificate
  verify_peer want (cert ∷ rest) =
      let seen = w.fingerprint_of cert in
      if not (is_empty want) && not (text_eq seen want) then err wrong_fingerprint else ok seen

  -- Nothing is seen in plain text.
  unfoldable pub handshake : EnrollOptions → Peer → Result EnrollError Text
  handshake opts peer =
      if opts.is_plaintext
      then ok []
      else verify_peer (normalize_fingerprint w.unicode opts.expect_fingerprint) peer.certificates

  unfoldable pub dial : EnrollOptions → Peer → Result EnrollError Text
  dial opts peer = do
    seen ← handshake opts peer
    refuse_if (not peer.is_reached) no_connection
    ok seen

  unfoldable pub answered : Result Text Bool → Result EnrollError (Unit {0})
  answered (err why) = err (confirm_failed why)
  answered (ok true) = ok tt
  answered (ok false) = err not_confirmed

  unfoldable pub ask : Text → Option Confirm → Result EnrollError (Unit {0})
  ask seen none = ok tt
  ask seen (some confirm) = answered (confirm seen)

  -- The operator is asked about a certificate that nothing else vouches for.
  unfoldable pub confirm_seen : EnrollOptions → Text → Result EnrollError (Unit {0})
  confirm_seen opts seen =
      if not (is_empty seen) && is_empty (normalize_fingerprint w.unicode opts.expect_fingerprint)
      then ask seen opts.confirm_fingerprint
      else ok tt

  unfoldable pub enroll_frame : EnrollOptions → Result EnrollError Frame
  enroll_frame opts =
      or_refuse
        (new_frame w.enroll FrameType.enroll (record {
          protocol_version = protocol_version;
          code = normalize_enroll_code w.unicode opts.code;
          version = [];
        }))
        not_encoded

  -- Up to the code: the fingerprint that was seen, and the frame that is about to be sent.
  unfoldable pub prepare : EnrollOptions → Peer → Result EnrollError (Text × Frame)
  prepare opts peer = do
    code_checked (validate_enroll_code w.unicode opts.code)
    refuse_if (is_empty (dial_address opts.hub_address)) no_address
    seen ← dial opts peer
    confirm_seen opts seen
    request ← enroll_frame opts
    ok (seen, request)

  unfoldable pub rejected_by : Option RelayError → EnrollError
  rejected_by none = rejected none
  rejected_by (some e) = rejected (some e.message)

  unfoldable pub credentials : Text → Enrolled → Result EnrollError EnrollResult
  credentials seen e =
      if is_empty e.token || is_empty e.server_key
      then err incomplete
      else ok (record {
        server_key = e.server_key;
        short_name = e.short_name;
        token = e.token;
        fingerprint = seen;
      })

  -- The frame that the hub answers with.
  unfoldable pub read_response : Text → Frame → FrameType → Result EnrollError EnrollResult
  read_response seen f FrameType.error = err (rejected_by (decode w.error f))
  read_response seen f FrameType.enrolled = do
    e ← or_refuse (decode w.enrolled f) not_decoded
    credentials seen e
  read_response seen f FrameType.hello = err (unexpected FrameType.hello)
  read_response seen f FrameType.welcome = err (unexpected FrameType.welcome)
  read_response seen f FrameType.event = err (unexpected FrameType.event)
  read_response seen f FrameType.status = err (unexpected FrameType.status)
  read_response seen f FrameType.enroll = err (unexpected FrameType.enroll)
  read_response seen f FrameType.test = err (unexpected FrameType.test)
  read_response seen f FrameType.test_reply = err (unexpected FrameType.test_reply)
  read_response seen f (FrameType.unknown t) = err (unexpected (FrameType.unknown t))

  unfoldable pub exchange : Text → Peer → Result EnrollError EnrollResult
  exchange seen peer = do
    refuse_if (not peer.takes) not_sent
    f ← or_refuse peer.response no_response
    read_response seen f f.frame_type

  -- What the hub was sent, and the result.
  unfoldable pub enroll_from :
      Peer → Result EnrollError (Text × Frame) → List Frame × Result EnrollError EnrollResult
  enroll_from peer (err why) = ([], err why)
  enroll_from peer (ok (seen, request)) = (request ∷ [], exchange seen peer)

  unfoldable pub enroll : EnrollOptions → Peer → List Frame × Result EnrollError EnrollResult
  enroll opts peer = enroll_from peer (prepare opts peer)
