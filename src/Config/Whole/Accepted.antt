-- ===== src/Config/Whole/Accepted.antt =====
-- What the whole check of config/config.go leaves behind.
use talkeqidea.Common.{
  ℕ, suc, ◌*◌, ◌≡◌, ◌⊎◌, inl, inr, Bool, false, not, List, [], ◌∷◌, Option, none, some, Text, codes,
  is_empty, All, ℤ, pos, negsuc, Bool-cases, lt_nat, Result, ok, err, ok-injective, ◌>>=◌,
  >>=-eq-ok, refuse_if-eq-ok, or_refuse, arith, refl, ap, ◌∙◌, sym,
}
use talkeqidea.Golang.Strings.{Unicode}
use talkeqidea.Guard.Core.{second}
use talkeqidea.Relay.JoinCode.{JoinCode, JoinCodeError}
use talkeqidea.Config.Settings.{Float}
use talkeqidea.Config.Relay
use talkeqidea.Config.Relay.{default_to}
use talkeqidea.Config.Routes.{verify_telnet, verify_eqlog, verify_peqeditor, verify_discord}
use talkeqidea.Config.Routes.Loaded.{
  IsLoaded, IsReady, verify_telnet-AreLoaded, verify_discord-ready,
}
use talkeqidea.Config.Whole.{
  Config, SectionError, relay_error, route_error, SqlReportEntry, SqlReportConf, verify_entry,
  verify_entries, verify_sqlreport, verify_api, in_section, with_default_paths, at_least_ten,
  keep_alive_retry_duration, verify,
}

-- A report is made at most every 30 seconds, from a template.
abbrev pub IsPaced : SqlReportEntry → Type 0
IsPaced e =
    (lt_nat e.refresh_duration (30 * second) ≡ false) × (e.pattern_template ≡ some e.pattern)

in_section-ok :
    {E A : Type 0} (wrap : E → SectionError) (r : Result E A) (a : A)
    → in_section wrap r ≡ ok a
    → r ≡ ok a
unfolding in_section
in_section-ok wrap (ok x) a h = ap ok (ok-injective h)
in_section-ok wrap (err e) a h = absurd (cc)

module _ (parses : Text → Bool) (parse_duration : Text → Option ℤ) where
  verify_entry-IsPaced :
      (now i : ℕ) (e e' : SqlReportEntry)
      → verify_entry parses parse_duration now i e ≡ ok e'
      → IsPaced e'
  unfolding verify_entry
  verify_entry-IsPaced now i e e' h =
      let (refresh, h1, parsed) = >>=-eq-ok _ (or_refuse (parse_duration e.refresh) _) h in
      let (paced, h2) = refuse_if-eq-ok (lt_nat refresh (30 * second)) _ _ h1 in
      let (readable, h3) = refuse_if-eq-ok (not (parses e.pattern)) _ _ h2 in
      rw (← ok-injective h3) (paced, refl)

  verify_entries-ArePaced :
      (now i : ℕ) (es es' : List SqlReportEntry)
      → verify_entries parses parse_duration now i es ≡ ok es'
      → All IsPaced es'
  unfolding verify_entries
  verify_entries-ArePaced now i [] [] h = tt
  verify_entries-ArePaced now i [] (x ∷ xs) h = absurd (cc)
  verify_entries-ArePaced now i (e ∷ rest) out h =
      let (e', h1, made) = >>=-eq-ok _ (verify_entry parses parse_duration now i e) h in
      let (rest', h2, later) =
        >>=-eq-ok _ (verify_entries parses parse_duration now (suc i) rest) h1 in
      rw (← ok-injective h2)
        (verify_entry-IsPaced now i e e' made, verify_entries-ArePaced now (suc i) rest rest' later)

  verify_sqlreport-ArePaced :
      (now : ℕ) (c c' : SqlReportConf)
      → verify_sqlreport parses parse_duration now c ≡ ok c'
      → (c'.is_enabled ≡ false) ⊎ All IsPaced c'.entries
  unfolding verify_sqlreport
  verify_sqlreport-ArePaced now c c' accepted = elim (Bool-cases c.is_enabled) [
    | inl on ↦
        (let with_entries : List SqlReportEntry → Result SectionError SqlReportConf =
            (λ entries. ok (record c { entries = entries })) in
          let opened : verify_sqlreport parses parse_duration now c
              ≡ (verify_entries parses parse_duration now 0 c.entries >>= with_entries) =
            rw on in
          let (entries, h, verified) =
            >>=-eq-ok with_entries (verify_entries parses parse_duration now 0 c.entries)
              (sym opened ∙ accepted) in
          let made : record c { entries = entries } ≡ c' = ok-injective h in
          rw (← made) (inr (verify_entries-ArePaced now 0 c.entries entries verified)))
    | inr off ↦
        (let kept : verify_sqlreport parses parse_duration now c ≡ ok c = rw off in
          let same : c ≡ c' = ok-injective (sym kept ∙ accepted) in rw (← same) (inl off))
  ]

  -- The retry is never below the bound under which it would be reset.
  at_least_ten-bound :
      (d : Option ℤ) → lt_nat (at_least_ten parses parse_duration d) (2 * second) ≡ false
  unfolding at_least_ten
  at_least_ten-bound none = refl
  at_least_ten-bound (some (pos d)) = ground arith
  at_least_ten-bound (some (negsuc d)) = refl

  -- A configuration that can be run with.
  pub record IsAccepted {F : Type 0} (given c : Config F) : Type 0 where
    pub users_path : is_empty c.users_database_path ≡ false
    pub guilds_path : is_empty c.guilds_database_path ≡ false
    pub retry : c.keep_alive_retry ≡ given.keep_alive_retry
    pub discord : (c.discord.is_enabled ≡ false) ⊎ All IsReady c.discord.routes
    pub telnet : (c.telnet.is_enabled ≡ false) ⊎ All IsLoaded c.telnet.routes
    pub reports : (c.sql_report.is_enabled ≡ false) ⊎ All IsPaced c.sql_report.entries

  default_to-present : (d s : Text) → is_empty d ≡ false → is_empty (default_to d s) ≡ false
  default_to-present d s h = ground arith

  retry_kept :
      {F : Type 0} (c : Config F)
      → (with_default_paths parses parse_duration c).keep_alive_retry ≡ c.keep_alive_retry
  unfolding with_default_paths keep_alive_retry_duration
  retry_kept c = let never = at_least_ten-bound (parse_duration c.keep_alive_retry) in ground arith

  -- Of a configuration that is accepted the two paths are not empty and the retry is the one that
  -- was given; the routes of Discord and of the console have a channel and a template where the
  -- section, and for the console the route, is enabled; and the reports, where they are enabled, have
  -- a template and wait 30 seconds at least.
  pub verify-IsAccepted :
      (u : Unicode) (f : Float) (parse : Text → Result JoinCodeError JoinCode) (now : ℕ)
      (c c' : Config f.F)
      → verify parses parse_duration u f parse now c ≡ ok c'
      → IsAccepted c c'
  unfolding verify with_default_paths
  verify-IsAccepted u f parse now c0 c' h =
      let c = with_default_paths parses parse_duration c0 in
      let (relay, h1, _) =
        >>=-eq-ok _ (in_section relay_error (Relay.verify u parses f parse c.relay)) h in
      let (api, h2, _) = >>=-eq-ok _ (verify_api c.api) h1 in
      let (discord, h3, d) =
        >>=-eq-ok _ (in_section route_error (verify_discord parses c.discord)) h2 in
      let (eqlog, h4, _) = >>=-eq-ok _ (in_section route_error (verify_eqlog parses c.eqlog)) h3 in
      let (peq, h5, _) =
        >>=-eq-ok _ (in_section route_error (verify_peqeditor parses c.peq_editor)) h4 in
      let (report, h6, s) =
        >>=-eq-ok _ (verify_sqlreport parses parse_duration now c.sql_report) h5 in
      let (telnet, h7, t) =
        >>=-eq-ok _ (in_section route_error (verify_telnet parses c.telnet)) h6 in
      rw (← ok-injective h7) (record {
        users_path =
            default_to-present (codes "modern-eq-chat-users.txt") c0.users_database_path refl;
        guilds_path = default_to-present (codes "./guilds.txt") c0.guilds_database_path refl;
        retry = retry_kept c0;
        discord =
            verify_discord-ready parses c.discord discord (in_section-ok route_error _ discord d);
        telnet =
            verify_telnet-AreLoaded parses c.telnet telnet (in_section-ok route_error _ telnet t);
        reports = verify_sqlreport-ArePaced now c.sql_report report s;
      })
