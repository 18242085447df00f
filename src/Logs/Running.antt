-- ===== src/Logs/Running.antt =====
-- The endpoints that follow log files do not stop the program: eqlog/eqlog.go and
-- peqeditorsql/peqeditorsql.go.
use talkeqidea.Common.{
  arith, ℤ, pos, negsuc, ltb, ◌&&◌, length, Bool-cases, ◌≡◌, inl, inr, true, not, List, [], ◌∷◌,
  some, Text, All, ok, ◌>>=◌, refuse_if, refl,
}
use talkeqidea.Config.Routes.{Route, message_pattern_template, EqLogConf, verify_eqlog}
use talkeqidea.Config.Routes.Loaded.{IsLoaded, verify_eqlog-AreLoaded}
use talkeqidea.Matching.{Engine, skipped, match_route, group, execute_loaded, to_discord}
use talkeqidea.Matching.Surviving.{
  survives, survives->>=, refuse_if-survives, match_route-survives, and_then-runs, HasIndices,
  element-survives, group-survives, loaded_survives, to_discord-survives,
}
use talkeqidea.Logs.{eqlog_route, eqlog_line, group_or_empty, peqeditor_route, peqeditor_line}

module _ (e : Engine) where
  -- From the match on, with what the route takes out of it.
  rendered-survives :
      (r : Route) (name message : Text)
      → r.template ≡ some r.message_pattern
      → survives
          (execute_loaded e (message_pattern_template e.parses r) name message >>= to_discord r)
        ≡ true
  rendered-survives r name message loaded =
      survives->>= (to_discord r) _ (loaded_survives e r name message loaded)
        (to_discord-survives e r)

  eqlog_route-survives :
      (line : Text) (r : Route) → IsLoaded r → HasIndices r → survives (eqlog_route e line r) ≡ true
  unfolding eqlog_route
  eqlog_route-survives line r (inl off) indices = rw off
  eqlog_route-survives line r (inr (has_channel, loaded)) (has_message, has_name) =
      survives->>= _ (refuse_if (not r.is_enabled) skipped) (refuse_if-survives r.is_enabled) (λ _.
        survives->>= _ (match_route e r.trigger.regex line)
          (match_route-survives e r.trigger.regex line)
          (λ m.
            survives->>= _ (group r.trigger.message_index m)
              (group-survives r.trigger.message_index m has_message)
              (λ message.
                survives->>= _ (group r.trigger.name_index m)
                  (group-survives r.trigger.name_index m has_name)
                  (λ name. rendered-survives r name message loaded))))

  group_or_empty-survives : (i : ℤ) (m : List Text) → survives (group_or_empty e i m) ≡ true
  unfolding group_or_empty
  group_or_empty-survives (pos i) m = elim (Bool-cases (ltb 0 i && ltb i (length m))) [
    | inl inside ↦ rw inside (element-survives m i (ground arith))
    | inr outside ↦ rw outside refl
  ]
  group_or_empty-survives (negsuc i) m = refl

  peqeditor_route-survives :
      (line : Text) (r : Route) → IsLoaded r → survives (peqeditor_route e line r) ≡ true
  unfolding peqeditor_route
  peqeditor_route-survives line r (inl off) = rw off
  peqeditor_route-survives line r (inr (has_channel, loaded)) =
      survives->>= _ (refuse_if (not r.is_enabled) skipped) (refuse_if-survives r.is_enabled) (λ _.
        survives->>= _ (match_route e r.trigger.regex line)
          (match_route-survives e r.trigger.regex line)
          (λ m.
            survives->>= _ (group_or_empty e r.trigger.message_index m)
              (group_or_empty-survives r.trigger.message_index m)
              (λ message.
                survives->>= _ (group_or_empty e r.trigger.name_index m)
                  (group_or_empty-survives r.trigger.name_index m)
                  (λ name. rendered-survives r name message loaded))))

  eqlog_line-runs :
      (line : Text) (rs : List Route)
      → All IsLoaded rs
      → All HasIndices rs
      → (eqlog_line e line rs).1 ≡ true
  unfolding eqlog_line
  eqlog_line-runs line [] loaded indices = refl
  eqlog_line-runs line (r ∷ rest) (l, loaded) (i, indices) =
      and_then-runs (eqlog_route e line r) (eqlog_line e line rest)
        (eqlog_route-survives line r l i) (eqlog_line-runs line rest loaded indices)

  peqeditor_line-runs :
      (line : Text) (rs : List Route) → All IsLoaded rs → (peqeditor_line e line rs).1 ≡ true
  unfolding peqeditor_line
  peqeditor_line-runs line [] loaded = refl
  peqeditor_line-runs line (r ∷ rest) (l, loaded) =
      and_then-runs (peqeditor_route e line r) (peqeditor_line e line rest)
        (peqeditor_route-survives line r l) (peqeditor_line-runs line rest loaded)

  -- When the check accepts a section for EverQuest logs that is enabled, and the indices of the
  -- message and of the name in every route are not negative, no line of the log stops the program.
  pub eqlog_accepted_runs :
      (c c' : EqLogConf) (line : Text)
      → c.is_enabled ≡ true
      → verify_eqlog e.parses c ≡ ok c'
      → All HasIndices c'.routes
      → (eqlog_line e line c'.routes).1 ≡ true
  eqlog_accepted_runs c c' line on accepted indices =
      eqlog_line-runs line c'.routes (verify_eqlog-AreLoaded e.parses c c' on accepted) indices
