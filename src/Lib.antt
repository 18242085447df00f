-- ===== src/Lib.antt =====
-- Modern EQ Chat: a relay that carries chat between EverQuest emulator servers and Discord.
--
-- A hub accepts websocket connections of agents, one for each game server. An agent proves who it
-- is by a token, which the hub holds as a hash in its roster; an agent that has none yet presents
-- an enrollment code and is given one. Chat comes to the hub as events. The hub sanitizes an
-- event, asks its router where it goes, and puts it into the queue of each session it goes to,
-- or sends it to Discord. The agent writes a relayed event to the console of its game server,
-- whose own echo of that line it must not send back. A guard decides who may connect and bans
-- addresses that fail to prove who they are. An operator renames servers, probes agents and
-- changes the channels while the hub runs, on pages that ask for a password.
--
-- Beside the relay stand the endpoints: the console of the game, the bot, two that follow log
-- files, and an API. Each takes a line or a message through the routes of the configuration, and
-- hands requests to the client, which passes them to another endpoint or into the relay. Small data
-- bases hold who is known in the game by which name, and who asked to be.
--
-- The parts, and the files that model them:
--
--   sanitize/sanitize.go      Sanitize            the cleaning of names, messages and server keys
--   relay/event.go            Relay.Event         events, their checks, template data
--   relay/event.go, relay/test.go   Relay.Frame   the envelope and what travels in it
--   relay/joincode.go         Relay.JoinCode      what an agent needs to connect, in one text
--   relay/enroll.go           Relay.EnrollCode    enrollment codes as people type them
--   hub/router.go             Hub.Router, Hub.Seen    who gets an event; duplicates
--   hub/session.go            Hub.Session         the bounded queue of an agent
--   hub/roster.go             Hub.Roster, Hub.Store   the agents that may connect, and their file
--   hub/enroll.go             Hub.Enroll, Hub.Store   enrollment codes, issued and redeemed
--   hub/hub.go                Hub.Core            sessions, and the publishing of an event
--   hub/hub.go                Hub.Enrollment      a code exchanged for a token
--   hub/hub.go                Hub.Admission       handleAgent: a connection becomes a session
--   hub/hub.go                Hub.Frames          onFrame: events, status and test replies
--   hub/control.go            Hub.Probes          pendingTests and TestAgent
--   hub/control.go            Hub.Control         RenameAgent, ReplaceChannels; JoinCode of hub.go
--   hub/hub.go, hub/control.go   Hub.Runs         what can happen to a hub, from its agents, its
--                             operators and other processes, in any order
--   agent/agent.go            Agent.Link          the state of an agent and its queue
--   agent/agent.go            Agent.Inbound       frames from the hub, lines for the console
--   agent/agent.go            Agent.Reconnect     the handshake, the backoff, the pinned key
--   agent/agent.go            Agent.Runs          what can happen to an agent, in any order
--   agent/enroll.go           Agent.Enroll        a code exchanged for a token, at the agent
--   agent/echo.go             Agent.Echo          the lines an agent wrote into its own game
--   guard/guard.go            Guard.Core          admission and bans
--   guard/limiter.go          Guard.Window        the rolling window
--   guard/limiter.go          Guard.Limiter       the token bucket of an agent's messages
--   config/config_relay.go    Config.Settings, Config.Relay   settings, checks and defaults
--   webui/auth.go             Webui.Auth          log-in, log-out and the check of a request
--   config/route.go and the sections   Config.Routes   routes, and the sections that have them
--   config/config.go          Config.Whole        the whole configuration and its check
--   config/migrate.go         Config.Migrate      an installation under the old names, moved
--   request/request.go        Requests            what the endpoints hand to the client
--   eqlog/eqlog.go, peqeditorsql/peqeditorsql.go   Logs, Matching   one line of a log
--   telnet/telnet_msg.go      Telnet.Messages, Telnet.Links   one line of the console
--   telnet/telnet_online.go   Telnet.Online       the list of players that the console prints
--   telnet/telnet.go          Telnet.Console      the loop, Send, log-in, announcements
--   discord/discord.go        Discord             the bot, and the name in a role
--   discord/discord_msg.go    Discord.Incoming    handleMessage
--   discord/discord_cmd*.go   Discord.Commands    the slash command that lists the players
--   sqlreport/sqlreport.go    SqlReport           one pass over the reports
--   api/*.go                  Api                 !register, its confirmation, the list for quests
--   client/client.go          Client              onMessage, and what an agent does without
--   client/client.go          Client.Connecting   the order of Connect, one round of the loops
--   userdb, guilddb, characterdb, registerdb   Databases   the four data bases
--
-- Common holds what the parts share: tests, lists, texts, maps, results, signed integers.
-- Golang has the parts of Go's strings and unicode/utf8 that the program relies on.
--
-- How the source is read:
--
--   A Go string is the list of its bytes, and ranging over it decodes UTF-8, where a broken
--   sequence yields the replacement character. A map with string keys is a list with one entry
--   for each key; ranging over it is in the order of that list. The tables of package unicode
--   are a parameter, as are net/netip, the argon2id check of a token, the random bytes, and the
--   execution of a template. The JSON encoding of a frame, which may fail, the answer of a
--   session's message limiter, and whether a reply reached its agent are arguments too, and so
--   are base64, SHA-256, hexadecimal digits, the parsing of a template and the arithmetic of
--   floats, in the checks of settings and in the token bucket.
--
--   A method that changes its receiver takes the state and returns the new state with its result.
--   Mutexes are left out: a method is one step, although Publish, Authenticate and handleEnroll
--   hold locks only for parts of theirs. A connection, from its admission to its session, is
--   one step too, so the count of sessions that the guard compares is the one at that moment.
--   What a pointer compares by is a number given to each session. The clock is an argument, in
--   nanoseconds or, where the source keeps Unix seconds, in seconds; a method that reads it more
--   than once reads one value here. The file of the roster or of the codes is a value that
--   another process may have changed, with its modification time, and how a write ends is an
--   argument: it fails, it succeeds, or it succeeds and the new time cannot be read.
--
--   Package regexp, the execution of a template and the Discord library are parameters too: what a
--   pattern finds, and what the library answers. A request that is handed to every subscriber stands
--   once in the list that a handler returns. An index out of range and a nil template, which stop
--   the program, are a value of their own; so are a call that waits for a lock that is never given
--   back, and a write to a nil map, which ends the handler of a request. The recursion that replaces item links has fuel; as each round takes two bytes 0x12
--   out of the text, as much fuel as the text has such bytes, and one more, is enough.
--
--   Integers are natural numbers, as no quantity of these parts is negative where it is used;
--   a negative limit acts as 0 in every test the guard makes. In the settings, which give a
--   negative number a meaning, they are signed. Loops are by recursion on the list
--   or, for the doubling of a ban, on the number of rounds, so no fuel is needed. Errors are
--   values of a data type for each part, and their texts are left out, but for what a probe
--   reports.
--
-- What is not modelled: sockets, TLS, JSON and TOML, log output, the web pages, the service
-- manager and the terminal dialogue, which are input and output or calls of libraries; the watchers
-- of the files of the data bases, and what creates these files.
pub mod Common
pub mod Golang
pub mod Sanitize
pub mod Relay
pub mod Hub
pub mod Guard
pub mod Agent
pub mod Config
pub mod Webui
pub mod Requests
pub mod Databases
pub mod Matching
pub mod Logs
pub mod Telnet
pub mod Discord
pub mod Api
pub mod Client
pub mod SqlReport
