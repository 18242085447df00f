-- ===== src/Relay/Frame.antt =====
-- The envelope of relay/event.go and what travels in it, with the probes of relay/test.go and the
-- enrollment of relay/enroll.go.
pub mod RoundTrip
use talkeqidea.Common.{
  ℕ, ◌≡◌, Bool, List, [], ◌∷◌, Option, none, some, Text, is_empty, if◌then◌else◌,
}
use talkeqidea.Relay.Event.{Event, FrameType}

pub record Frame : Type 0 where
  pub frame_type : FrameType
  pub payload : Text

-- `encoding/json` on one type.
pub record Json (A : Type 0) : Type 0 where
  pub marshal : A → Option Text
  pub unmarshal : Text → Option A

unfoldable pub framed : FrameType → Option Text → Option Frame
framed t none = none
framed t (some buf) = some (record { frame_type = t; payload = buf })

module _ {A : Type 0} (j : Json A) where
  -- With a payload.
  unfoldable pub new_frame : FrameType → A → Option Frame
  new_frame t payload = framed t (j.marshal payload)

  unfoldable pub decode : Frame → Option A
  decode f = if is_empty f.payload then none else j.unmarshal f.payload

pub record Hello : Type 0 where
  pub protocol_version : ℕ
  pub server_key : Text
  pub token : Text
  pub version : Text
  pub channels : List Text

pub record Welcome : Type 0 where
  pub protocol_version : ℕ
  pub server_key : Text
  pub short_name : Text
  pub hub_version : Text
  pub heartbeat_secs : ℕ

pub record Status : Type 0 where
  pub player_count : ℕ
  pub source_up : Bool
  pub dropped_inbound : ℕ

-- `relay.Error`.
pub record RelayError : Type 0 where
  pub code : Text
  pub message : Text

-- `relay.Test`.
pub record Probe : Type 0 where
  pub id : Text
  pub is_echo : Bool
  pub message : Text

-- `relay.TestReply`.
pub record ProbeReply : Type 0 where
  pub id : Text
  pub source_up : Bool
  pub player_count : ℕ
  pub version : Text
  pub injected_ok : Bool
  pub detail : Text

-- The types that are encoded and decoded.
pub record Codecs : Type 0 where
  pub hello : Json Hello
  pub welcome : Json Welcome
  pub event : Json Event
  pub status : Json Status
  pub error : Json RelayError
  pub test : Json Probe
  pub test_reply : Json ProbeReply
