-- ===== src/Golang/Tables.antt =====
-- Rune tables that are right for ASCII, for tests.
use talkeqidea.Common.{◌+◌, ◌-◌, refl, if◌then◌else◌}
use talkeqidea.Golang.Utf8.{is_between}
use talkeqidea.Golang.Strings.{Unicode, LowersAscii, RaisesAscii}

abbrev pub ascii_tables : Unicode
ascii_tables = record {
  is_print = λ r. is_between 0x20 0x7E r;
  to_lower = λ r. if is_between b'A' b'Z' r then r + 32 else r;
  to_upper = λ r. if is_between b'a' b'z' r then r - 32 else r;
}

pub ascii_tables-LowersAscii : LowersAscii ascii_tables
ascii_tables-LowersAscii r h = refl

pub ascii_tables-RaisesAscii : RaisesAscii ascii_tables
ascii_tables-RaisesAscii r h = refl
