-- ===== src/Relay/JoinCode.antt =====
-- relay/joincode.go. A `JoinCode` is carried by its JSON in base64, which are the parameters.
pub mod RoundTrip
mod Tests
use talkeqidea.Common.{
  ℕ, ◌≡◌, Bool, true, false, List, [], ◌∷◌, ◌++◌, Option, none, some, Text, codes, is_empty, ◌==◌,
  if◌then◌else◌, Result, ok, err, refuse_if, or_refuse, ◌>>=◌, ◌>>◌,
}
use talkeqidea.Golang.Strings.{trim_space}
use talkeqidea.Golang.Search.{after_prefix}
use talkeqidea.Relay.Frame.{Json}

pub record JoinCode : Type 0 where
  pub address : Text
  pub server_key : Text
  pub token : Text
  pub fingerprint : Text

-- `base64.RawURLEncoding`.
pub record Base64 : Type 0 where
  pub encode : Text → Text
  pub decode : Text → Option Text

abbrev pub join_code_prefix : Text
join_code_prefix = codes "meqc1_"

abbrev pub legacy_join_code_prefix : Text
legacy_join_code_prefix = codes "talkeq1_"

pub data JoinCodeError : Type 0 where
  no_prefix not_base64 not_json no_address no_server_key no_token : JoinCodeError

unfoldable pub first_some : Option Text → Option Text → Option Text
first_some none later = later
first_some (some body) later = some body

-- What follows the prefix, the current one or the one from before the project was renamed.
unfoldable pub body_of : Text → Option Text
body_of s = first_some (after_prefix join_code_prefix s) (after_prefix legacy_join_code_prefix s)

module _ (b : Base64) (json : Json JoinCode) where
  unfoldable pub encode_buf : Option Text → Option Text
  encode_buf none = none
  encode_buf (some buf) = some (join_code_prefix ++ b.encode buf)

  unfoldable pub encode : JoinCode → Option Text
  encode j = encode_buf (json.marshal j)

  unfoldable pub parse_join_code : Text → Result JoinCodeError JoinCode
  parse_join_code s = do
    body ← or_refuse (body_of (trim_space s)) no_prefix
    buf ← or_refuse (b.decode body) not_base64
    j ← or_refuse (json.unmarshal buf) not_json
    refuse_if (is_empty j.address) no_address
    refuse_if (is_empty j.server_key) no_server_key
    refuse_if (is_empty j.token) no_token
    ok j
