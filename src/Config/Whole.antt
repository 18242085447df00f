-- ===== src/Config/Whole.antt =====
-- config/config.go, config_api.go and config_sqlreport.go: the configuration with all its sections,
-- and its check. `parse_duration` is `time.ParseDuration`, in nanoseconds.
pub mod Accepted
pub mod Tests
use talkeqidea.Common.{
  ℕ, suc, ◌+◌, ◌*◌, ◌≡◌, Bool, true, false, not, ◌&&◌, List, [], ◌∷◌, Option, none, some, Text,
  codes, is_empty, ltb, if◌then◌else◌, ℤ, pos, negsuc, lt_nat, Result, ok, err, refuse_if,
  or_refuse, ◌>>=◌, ◌>>◌,
}
use talkeqidea.Golang.Strings.{Unicode}
use talkeqidea.Guard.Core.{second}
use talkeqidea.Relay.JoinCode.{JoinCode, JoinCodeError}
use talkeqidea.Config.Settings.{Float, RelayConfig}
use talkeqidea.Config.Relay
use talkeqidea.Config.Relay.{ConfigError, default_to}
use talkeqidea.Config.Routes.{
  RouteError, TelnetConf, EqLogConf, PeqEditorConf, DiscordConf, verify_telnet, verify_eqlog,
  verify_peqeditor, verify_discord,
}

-- `config.API` with its `APIRegister`.
pub record ApiConf : Type 0 where
  pub is_enabled : Bool
  pub host : Text
  pub is_register_enabled : Bool
  pub registration_database_path : Text

-- A template that was parsed is its text.
pub record SqlReportEntry : Type 0 where
  pub channel_id : Text
  pub query : Text
  pub pattern : Text
  pub pattern_template : Option Text
  pub refresh : Text
  pub refresh_duration : ℤ
  pub next_report : ℕ
  pub text : Text
  pub index : ℕ

pub record SqlReportConf : Type 0 where
  pub is_enabled : Bool
  pub entries : List SqlReportEntry

pub data SectionError : Type 0 where
  no_registration_path bad_refresh refresh_too_short bad_report_pattern : SectionError
  relay_error : ConfigError → SectionError
  route_error : RouteError → SectionError

unfoldable pub verify_api : ApiConf → Result SectionError ApiConf
verify_api c = if not c.is_enabled then ok c else (do
  refuse_if (c.is_register_enabled && is_empty c.registration_database_path) no_registration_path
  ok (record c { host = default_to (codes "127.0.0.1:9933") c.host }))

-- The error of one section as the error of the whole.
unfoldable pub in_section : {E A : Type 0} → (E → SectionError) → Result E A → Result SectionError A
in_section wrap (ok a) = ok a
in_section wrap (err e) = err (wrap e)

pub record Config (F : Type 0) : Type 0 where
  pub is_keep_alive_enabled : Bool
  pub keep_alive_retry : Text
  pub users_database_path : Text
  pub guilds_database_path : Text
  pub relay : RelayConfig F
  pub api : ApiConf
  pub discord : DiscordConf
  pub telnet : TelnetConf
  pub eqlog : EqLogConf
  pub peq_editor : PeqEditorConf
  pub sql_report : SqlReportConf

module _ (parses : Text → Bool) (parse_duration : Text → Option ℤ) where
  -- One round of the loop of `SQLReport.Verify`.
  unfoldable pub verify_entry : ℕ → ℕ → SqlReportEntry → Result SectionError SqlReportEntry
  verify_entry now i e = do
    refresh ← or_refuse (parse_duration e.refresh) bad_refresh
    refuse_if (lt_nat refresh (30 * second)) refresh_too_short
    refuse_if (not (parses e.pattern)) bad_report_pattern
    ok (record e {
      index = i;
      refresh_duration = refresh;
      pattern_template = some e.pattern;
      next_report = now;
    })

  unfoldable pub verify_entries :
      ℕ → ℕ → List SqlReportEntry → Result SectionError (List SqlReportEntry)
  verify_entries now i [] = ok []
  verify_entries now i (e ∷ rest) = do
    e' ← verify_entry now i e
    rest' ← verify_entries now (suc i) rest
    ok (e' ∷ rest')

  unfoldable pub verify_sqlreport : ℕ → SqlReportConf → Result SectionError SqlReportConf
  verify_sqlreport now c =
      if not c.is_enabled
      then ok c
      else (do entries ← verify_entries now 0 c.entries; ok (record c { entries = entries }))

  unfoldable pub at_least_ten : Option ℤ → ℤ
  at_least_ten none = pos (10 * second)
  at_least_ten (some d) = if lt_nat d (10 * second) then pos (10 * second) else d

  -- `KeepAliveRetryDuration`.
  unfoldable pub keep_alive_retry_duration : Text → ℤ
  keep_alive_retry_duration retry = at_least_ten (parse_duration retry)

  -- The paths and the retry, before the sections.
  unfoldable pub with_default_paths : {F : Type 0} → Config F → Config F
  with_default_paths c = record c {
    users_database_path = default_to (codes "modern-eq-chat-users.txt") c.users_database_path;
    guilds_database_path = default_to (codes "./guilds.txt") c.guilds_database_path;
    keep_alive_retry =
        if c.is_keep_alive_enabled
          && lt_nat (keep_alive_retry_duration c.keep_alive_retry) (2 * second)
        then codes "30s"
        else c.keep_alive_retry;
  }

  -- `Config.Verify`.
  unfoldable pub verify :
      Unicode
      → (f : Float) → (Text → Result JoinCodeError JoinCode)
      → ℕ
      → Config f.F
      → Result SectionError (Config f.F)
  verify u f parse now c0 = do
    let c = with_default_paths c0
    relay ← in_section relay_error (Relay.verify u parses f parse c.relay)
    api ← verify_api c.api
    discord ← in_section route_error (verify_discord parses c.discord)
    eqlog ← in_section route_error (verify_eqlog parses c.eqlog)
    peq_editor ← in_section route_error (verify_peqeditor parses c.peq_editor)
    sql_report ← verify_sqlreport now c.sql_report
    telnet ← in_section route_error (verify_telnet parses c.telnet)
    ok (record c {
      relay = relay;
      api = api;
      discord = discord;
      eqlog = eqlog;
      peq_editor = peq_editor;
      sql_report = sql_report;
      telnet = telnet;
    })
