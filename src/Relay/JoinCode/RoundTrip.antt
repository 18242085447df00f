-- ===== src/Relay/JoinCode/RoundTrip.antt =====
-- A join code that is written and read again.
use talkeqidea.Common.{
  ◌≡◌, ◌≢◌, refl, Option-cases, inl, inr, [], ◌∷◌, ◌++◌, some, arith, Text, ==_refl, ok,
}
use talkeqidea.Golang.Strings.{trim_space}
use talkeqidea.Relay.Frame.{Json}
use talkeqidea.Golang.Search.{after_prefix}
use talkeqidea.Relay.JoinCode.{
  JoinCode, Base64, join_code_prefix, first_some, body_of, encode_buf, encode, parse_join_code,
}

after_prefix-append : (p s : Text) → after_prefix p (p ++ s) ≡ some s
unfolding after_prefix
after_prefix-append [] s = refl
after_prefix-append (c ∷ p) s = rw (==_refl c) (after_prefix-append p s)

-- A join code that names an address, a server and a token is read back from what was written of it
-- by a library that reads back what it writes, and that writes no white space at the end.
pub parse-encode :
    (b : Base64) (json : Json JoinCode) (j : JoinCode) (written : Text)
    → ((s : Text) → b.decode (b.encode s) ≡ some s)
    → ((buf : Text) → json.marshal j ≡ some buf → json.unmarshal buf ≡ some j)
    → trim_space written ≡ written
    → j.address ≢ []
    → j.server_key ≢ []
    → j.token ≢ []
    → encode b json j ≡ some written
    → parse_join_code b json written ≡ ok j
unfolding encode encode_buf parse_join_code body_of first_some
parse-encode b json j written base reads trimmed a k t made = elim (Option-cases (json.marshal j)) [
  | inl failed ↦ absurd (cc (rw failed at made))
  | inr (buf, wrote) ↦
      let same : written ≡ join_code_prefix ++ b.encode buf = ground (arith, rw wrote at made) in
      let body : after_prefix join_code_prefix written ≡ some (b.encode buf) =
        rw same (after_prefix-append join_code_prefix (b.encode buf)) in
      rw (trimmed, body, base buf, reads buf wrote) (ground arith)
]
