-- ===== src/Logs.antt =====
-- The endpoints that follow log files: one line of eqlog/eqlog.go and of
-- peqeditorsql/peqeditorsql.go.
pub mod Running
pub mod Tests
use talkeqidea.Common.{
  ℕ, ◌≡◌, Bool, true, false, not, ◌&&◌, List, [], ◌∷◌, ◌++◌, Option, none, some, Text, codes,
  text_eq, length, leb, ltb, ◌==◌, if◌then◌else◌, ℤ, pos, negsuc, Result, ok, err, ◌>>=◌, ◌>>◌,
  refuse_if,
}
use talkeqidea.Config.Routes.{Route, message_pattern_template}
use talkeqidea.Requests.{Request, discord_send}
use talkeqidea.Matching.{
  Engine, Stop, skipped, match_route, element, group, execute_loaded, Sent, and_then, to_discord,
}

module _ (e : Engine) where
  unfoldable pub eqlog_route : Text → Route → Result Stop (List Request)
  eqlog_route line r = do
    refuse_if (not r.is_enabled) skipped
    m ← match_route e r.trigger.regex line
    message ← group r.trigger.message_index m
    name ← group r.trigger.name_index m
    text ← execute_loaded e (message_pattern_template e.parses r) name message
    to_discord r text

  unfoldable pub eqlog_line : Text → List Route → Sent
  eqlog_line line [] = ([], true)
  eqlog_line line (r ∷ rest) = and_then (eqlog_route line r) (eqlog_line line rest)

  -- A group of the match, or nothing where the index is 0, negative or too large.
  unfoldable pub group_or_empty : ℤ → List Text → Result Stop Text
  group_or_empty (pos i) m = if ltb 0 i && ltb i (length m) then element m i else ok []
  group_or_empty (negsuc i) m = ok []

  unfoldable pub peqeditor_route : Text → Route → Result Stop (List Request)
  peqeditor_route line r = do
    refuse_if (not r.is_enabled) skipped
    m ← match_route e r.trigger.regex line
    message ← group_or_empty r.trigger.message_index m
    name ← group_or_empty r.trigger.name_index m
    text ← execute_loaded e (message_pattern_template e.parses r) name message
    to_discord r text

  unfoldable pub peqeditor_line : Text → List Route → Sent
  peqeditor_line line [] = ([], true)
  peqeditor_line line (r ∷ rest) = and_then (peqeditor_route line r) (peqeditor_line line rest)
