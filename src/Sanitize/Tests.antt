-- ===== src/Sanitize/Tests.antt =====
-- The inputs of sanitize/sanitize_test.go, and the theorems at concrete inputs.
use talkeqidea.Common.{◌≤◌, ◌≡◌, refl, true, false, [], ◌∷◌, codes, length}
use talkeqidea.Golang.Tables.{ascii_tables}
use talkeqidea.Sanitize.{telnet_line, name, message, server_key, is_safe_telnet_line, truncate}
use talkeqidea.Sanitize.Safe.{message_safe}

newline_becomes_space :
    telnet_line ascii_tables (codes "hi\nzoneshutdown") 1000 ≡ codes "hi zoneshutdown"
unfolding telnet_line
newline_becomes_space = refl

crlf_becomes_space : telnet_line ascii_tables (codes "hello\r\nworld") 1000 ≡ codes "hello world"
unfolding telnet_line
crlf_becomes_space = refl

link_delimiter_dropped : telnet_line ascii_tables (b'l' ∷ 0x12 ∷ b'A' ∷ 0x12 ∷ []) 1000 ≡ codes "lA"
unfolding telnet_line
link_delimiter_dropped = refl

trims : telnet_line ascii_tables (codes "  spaced  ") 1000 ≡ codes "spaced"
unfolding telnet_line
trims = refl

name_drops : name (codes "Soandso the Brave\n") ≡ codes "SoandsotheBrave"
unfolding name
name_drops = refl

key_lowers : server_key ascii_tables (codes " My Server! ") ≡ codes "my-server"
unfolding server_key
key_lowers = refl

unsafe_refused : is_safe_telnet_line (codes "a\nb") ≡ false
unfolding is_safe_telnet_line
unsafe_refused = refl

message_safe_example :
    (length (message ascii_tables (codes "a\rb")) ≤ 1000)
    × (is_safe_telnet_line (message ascii_tables (codes "a\rb")) ≡ true)
message_safe_example = message_safe ascii_tables (codes "a\rb")

truncate_splits_nothing : truncate (b'a' ∷ 0xC3 ∷ 0xA9 ∷ []) 2 ≡ b'a' ∷ []
unfolding truncate
truncate_splits_nothing = refl
