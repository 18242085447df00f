-- ===== src/Requests.antt =====
-- request/request.go: what the endpoints hand to the client, without the context.
use talkeqidea.Common.{Text}

pub data Request : Type 0 where
  -- The channel and the message.
  discord_send : Text → Text → Request
  telnet_send : Text → Request
  -- Who asked: the name, the channel, the identifier, the name in the game; then the message.
  api_command : Text → Text → Text → Text → Text → Request
  -- The source, the channel, the name and the message.
  relay_publish : Text → Text → Text → Text → Request
