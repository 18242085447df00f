-- ===== src/Agent.antt =====
-- Package agent, which runs beside a game server.
pub mod Echo
pub mod Link
pub mod Inbound
pub mod Reconnect
pub mod Runs
pub mod Enroll
