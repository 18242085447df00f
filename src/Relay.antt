-- ===== src/Relay.antt =====
-- The wire protocol of package relay.
pub mod Event
pub mod EnrollCode
pub mod Frame
pub mod JoinCode
