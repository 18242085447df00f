-- ===== src/SqlReport.antt =====
-- sqlreport/sqlreport.go: one pass of the loop over the entries. The data base and the execution of
-- a template are parameters, and times are nanoseconds.
use talkeqidea.Common.{
  ℕ, ◌+◌, ◌-◌, ◌*◌, Bool, false, List, [], ◌∷◌, Option, none, some, Text, ltb, if◌then◌else◌, ℤ,
  pos, negsuc,
}
use talkeqidea.Guard.Core.{second}
use talkeqidea.Config.Whole.{SqlReportEntry}

-- `query` is `QueryRow` with `Scan`; `execute` is a template on the value; `rename` is whether the
-- library edits a channel.
pub record Reporter : Type 0 where
  pub query : Text → Option Text
  pub execute : Text → Text → Option Text
  pub rename : Text → Text → Bool

-- `now.Add(d)`, which does not go before the epoch here.
unfoldable pub after : ℕ → ℤ → ℕ
after now (pos d) = now + d
after now (negsuc d) = now - (d + 1)

-- `if next > d { next = d }`.
unfoldable pub sooner : ℤ → ℤ → ℤ
sooner (pos m) (pos n) = if ltb n m then pos n else pos m
sooner (pos m) (negsuc n) = negsuc n
sooner (negsuc m) (pos n) = negsuc m
sooner (negsuc m) (negsuc n) = if ltb m n then negsuc n else negsuc m

module _ (r : Reporter) where
  -- An entry whose template was not loaded panics in the source; the check of the configuration
  -- loads every template.
  unfoldable pub rendered : SqlReportEntry → Option Text → Option Text
  rendered e none = none
  rendered e (some value) = elim e.pattern_template [
    | none ↦ none
    | some template ↦ r.execute template value
  ]

  unfoldable pub with_text : SqlReportEntry → Option Text → SqlReportEntry
  with_text e none = e
  with_text e (some text) = record e { text = text }

  -- What an entry that is due becomes; where its query or its template fails it keeps its text.
  unfoldable pub report_due : ℕ → SqlReportEntry → SqlReportEntry
  report_due now e = record (with_text e (rendered e (r.query e.query))) {
    next_report = after now e.refresh_duration;
  }

  -- The first loop, with the time until the next pass.
  unfoldable pub report_all : ℕ → ℤ → List SqlReportEntry → List SqlReportEntry × ℤ
  report_all now next [] = ([], next)
  report_all now next (e ∷ rest) =
      let (skipped, wait) = report_all now next rest in
      let (reported, wait') = report_all now (sooner next e.refresh_duration) rest in
      if ltb now e.next_report then (e ∷ skipped, wait) else (report_due now e ∷ reported, wait')

  -- `SetChannelName`.
  unfoldable pub set_channel_name : Bool → Text → Text → Bool
  set_channel_name is_connected channel name = if is_connected then r.rename channel name else false

  -- The second loop: every entry is shown, and one that cannot be is put off.
  unfoldable pub show_all : Bool → ℕ → ℤ → List SqlReportEntry → List SqlReportEntry × ℤ
  show_all is_connected now next [] = ([], next)
  show_all is_connected now next (e ∷ rest) =
      let (shown, wait) = show_all is_connected now next rest in
      let (others, wait') = show_all is_connected now (sooner next e.refresh_duration) rest in
      if set_channel_name is_connected e.channel_id e.text
      then (e ∷ shown, wait)
      else (record e { next_report = after now e.refresh_duration } ∷ others, wait')

  unfoldable pub pass : Bool → ℕ → List SqlReportEntry → List SqlReportEntry × ℤ
  pass is_connected now entries =
      let (reported, wait) = report_all now (pos (30 * second)) entries in
      show_all is_connected now wait reported
