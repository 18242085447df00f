-- ===== src/Relay/Event.antt =====
-- relay/event.go and relay/template.go.
pub mod Laws
mod Tests
use talkeqidea.Common.{
  ℕ, ◌-◌, ◌≡◌, Bool, true, false, List, [], ◌∷◌, ◌++◌, Option, none, some, Text, codes, ltb, ◌==◌,
  text_eq, if◌then◌else◌, length, is_empty, Result, ok, err, refuse_if, ◌>>=◌, ◌>>◌,
}

abbrev pub protocol_version : ℕ
protocol_version = 1

-- The type tag of a frame; the tags of enrollment and of probes stand in files of their own.
pub data FrameType : Type 0 where
  hello welcome event status error enroll enrolled test test_reply : FrameType
  unknown : Text → FrameType

abbrev pub origin_discord : Text
origin_discord = codes "discord"

pub record Event : Type 0 where
  pub id : Text
  pub origin : Text
  pub origin_name : Text
  pub channel : Text
  pub name : Text
  pub message : Text
  pub hop : ℕ  -- uint8
  pub sent_at : ℕ

-- The random identifier and the time in milliseconds come from outside.
unfoldable pub new_event : Text → ℕ → Text → Text → Text → Event
new_event new_id now channel name message = record {
  id = new_id;
  origin = [];
  origin_name = [];
  channel = channel;
  name = name;
  message = message;
  hop = 0;
  sent_at = now;
}

-- In milliseconds; a Go duration would be negative where this is 0.
unfoldable pub age : ℕ → Event → ℕ
age now e = if e.sent_at == 0 then 0 else now - e.sent_at

unfoldable pub echo_key : Event → Text
echo_key e = e.name ++ 0 ∷ e.message

pub data EventError : Type 0 where
  channel_empty channel_long name_empty name_long message_empty message_long : EventError
  hop_limit : ℕ → EventError

unfoldable pub validate : Event → Result EventError (Unit {0})
validate e = do
  refuse_if (is_empty e.channel) channel_empty
  refuse_if (ltb 64 (length e.channel)) channel_long
  refuse_if (is_empty e.name) name_empty
  refuse_if (ltb 64 (length e.name)) name_long
  refuse_if (is_empty e.message) message_empty
  refuse_if (ltb 4000 (length e.message)) message_long
  refuse_if (ltb 4 e.hop) (hop_limit e.hop)

pub record TemplateData : Type 0 where
  pub name : Text
  pub message : Text
  pub origin : Text
  pub origin_name : Text
  pub channel : Text
  pub channel_id : Text

unfoldable pub template_data_for : Event → Text → TemplateData
template_data_for e channel_id = record {
  name = e.name;
  message = e.message;
  origin = e.origin;
  origin_name = if is_empty e.origin_name then e.origin else e.origin_name;
  channel = e.channel;
  channel_id = channel_id;
}

-- `text/template`: a parsed pattern is its text, and executing it may fail.
abbrev pub Renderer : Type 0
Renderer = Text → TemplateData → Option Text

unfoldable pub render : Renderer → Option Text → Event → Text → Option Text
unfolding template_data_for
render execute none e channel_id = none
render execute (some tmpl) e channel_id = execute tmpl (template_data_for e channel_id)
