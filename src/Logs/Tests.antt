-- ===== src/Logs/Tests.antt =====
-- A log with one route, whose pattern finds a name and a message in every line.
use talkeqidea.Common.{◌≡◌, refl, true, [], ◌∷◌, ◌++◌, some, codes}
use talkeqidea.Config.Routes.{
  EqLogConf, verify_eqlog, verify_routes, verify_route, load_message_pattern,
}
use talkeqidea.Config.Whole.Tests.{ooc, logs}
use talkeqidea.Matching.{Engine}
use talkeqidea.Logs.{eqlog_line}
use talkeqidea.Logs.Running.{eqlog_accepted_runs}

abbrev pub finding : Engine
finding = record {
  compile = λ regex. some (λ line. (line ∷ codes "Bob" ∷ line ∷ []) ∷ []);
  parses = λ pattern. true;
  execute = λ template name message. some (name ++ codes ": " ++ message);
}

abbrev loaded : EqLogConf
loaded = record logs { routes = record ooc { template = some (codes "P") } ∷ [] }

eqlog_accepted_runs_example : (eqlog_line finding (codes "hi") loaded.routes).1 ≡ true
unfolding verify_eqlog verify_routes verify_route load_message_pattern
eqlog_accepted_runs_example =
    eqlog_accepted_runs finding logs loaded (codes "hi") refl refl ((refl, refl), tt)
