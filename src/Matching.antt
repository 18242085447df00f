-- ===== src/Matching.antt =====
-- What telnet, eqlog and peqeditorsql do with a line: a route's pattern picks texts out of it.
-- Package regexp is a parameter, as is the execution of a template.
pub mod Surviving
use talkeqidea.Common.{
  ℕ, zero, suc, ◌≡◌, Bool, true, false, ◌&&◌, ◌||◌, List, [], ◌∷◌, ◌++◌, Option, none, some, Text,
  codes, text_eq, length, leb, ◌==◌, if◌then◌else◌, ℤ, pos, negsuc, Result, ok, err,
}
use talkeqidea.Config.Routes.{Route}
use talkeqidea.Requests.{Request, discord_send}

-- `regexp.Compile` and `FindAllStringSubmatch`: the whole match and its groups, for each match.
-- `parses` is `template.Parse`, and `execute` a template on a name and a message.
pub record Engine : Type 0 where
  pub compile : Text → Option (Text → List (List Text))
  pub parses : Text → Bool
  pub execute : Text → Text → Text → Option Text

-- Why a route sends nothing: the loop goes on, or the program ends.
pub data Stop : Type 0 where
  skipped panicked : Stop

-- The groups of the first match.
unfoldable pub first_match : List (List Text) → Result Stop (List Text)
first_match [] = err skipped
first_match (m ∷ rest) = ok m

unfoldable pub matched : Text → Option (Text → List (List Text)) → Result Stop (List Text)
matched line none = err skipped
matched line (some find_all) = first_match (find_all line)

unfoldable pub match_route : Engine → Text → Text → Result Stop (List Text)
match_route e regex line = matched line (e.compile regex)

-- `m[i]`, which panics out of range.
unfoldable pub element : List Text → ℕ → Result Stop Text
element [] i = err panicked
element (x ∷ xs) zero = ok x
element (x ∷ xs) (suc i) = element xs i

-- `if i >= len(m) { continue }`, then `m[i]`.
unfoldable pub group : ℤ → List Text → Result Stop Text
group (pos i) m = if leb (length m) i then err skipped else element m i
group (negsuc i) m = err panicked

-- A template that is nil panics; one that fails skips the route.
unfoldable pub executed : Option Text → Result Stop Text
executed none = err skipped
executed (some text) = ok text

unfoldable pub execute_loaded : Engine → Option Text → Text → Text → Result Stop Text
execute_loaded e none name message = err panicked
execute_loaded e (some template) name message = executed (e.execute template name message)

-- The requests so far, and whether the program still runs.
abbrev pub Sent : Type 0
Sent = List Request × Bool

-- One round of a loop over routes, before the others.
unfoldable pub and_then : Result Stop (List Request) → Sent → Sent
and_then (ok sent) (later, runs) = (sent ++ later, runs)
and_then (err skipped) later = later
and_then (err panicked) later = ([], false)

-- The target `discord`.
unfoldable pub to_discord : Route → Text → Result Stop (List Request)
to_discord r text =
    if text_eq r.target (codes "discord")
    then ok (discord_send r.channel_id text ∷ [])
    else err skipped
