-- ===== src/Telnet.antt =====
-- Package telnet: the console of a game server.
pub mod Links
pub mod Messages
pub mod Online
pub mod Console
