-- ===== src/Telnet/Messages/Tests.antt =====
-- A route that is switched off.
use talkeqidea.Common.{◌≡◌, false, [], codes, map}
use talkeqidea.Config.Whole.Tests.{console}
use talkeqidea.Logs.Tests.{finding}
use talkeqidea.Telnet.Messages.{parse_message}
use talkeqidea.Telnet.Messages.Disabled.{switched, switched_all_same}

switched_all_same_example :
    parse_message finding
      (record console { routes = map (λ r. switched false r) console.routes })
      []
      (codes "hi")
    ≡ parse_message finding console [] (codes "hi")
switched_all_same_example = switched_all_same finding console (λ r. false) [] (codes "hi")
