-- ===== src/Relay/EnrollCode/Tests.antt =====
-- Codes as an operator may type them.
use talkeqidea.Common.{◌≡◌, refl, codes, err}
use talkeqidea.Golang.Tables.{ascii_tables}
use talkeqidea.Relay.EnrollCode.{
  normalize_enroll_code, group, separator, format_enroll_code, validate_enroll_code,
}

mistyped : normalize_enroll_code ascii_tables (codes " oil-u 2 ") ≡ codes "011V2"
unfolding normalize_enroll_code
mistyped = refl

grouped : format_enroll_code ascii_tables (codes "ABCDEFGHJKMN") ≡ codes "ABCD-EFGH-JKMN"
unfolding format_enroll_code normalize_enroll_code group separator
grouped = refl

too_short : validate_enroll_code ascii_tables (codes "ABCD") ≡ err 4
unfolding validate_enroll_code normalize_enroll_code
too_short = refl
