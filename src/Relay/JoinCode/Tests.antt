-- ===== src/Relay/JoinCode/Tests.antt =====
-- A join code whose base64 and JSON are plain text.
use talkeqidea.Common.{◌≡◌, refl, [], some, codes, ok}
use talkeqidea.Golang.Strings.{trim_space}
use talkeqidea.Relay.Frame.{Json}
use talkeqidea.Relay.JoinCode.{JoinCode, Base64, encode, encode_buf, parse_join_code}
use talkeqidea.Relay.JoinCode.RoundTrip.{parse-encode}

abbrev plain : Base64
plain = record { encode = λ s. s; decode = some }

abbrev code : JoinCode
code = record {
  address = codes "h:1";
  server_key = codes "east";
  token = codes "t";
  fingerprint = [];
}

-- The one code that is written and read here.
abbrev one_code : Json JoinCode
one_code = record { marshal = λ j. some (codes "x"); unmarshal = λ s. some code }

written : encode plain one_code code ≡ some (codes "meqc1_x")
unfolding encode encode_buf
written = refl

untrimmed : trim_space (codes "meqc1_x") ≡ codes "meqc1_x"
unfolding trim_space
untrimmed = refl

parse-encode_example : parse_join_code plain one_code (codes "meqc1_x") ≡ ok code
parse-encode_example =
    parse-encode plain one_code code (codes "meqc1_x") (λ s. refl) (λ buf h. refl) untrimmed
      (λ h. cc) (λ h. cc) (λ h. cc) written
