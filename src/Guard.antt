-- ===== src/Guard.antt =====
-- Package guard: who may connect, how often, and how fast they may talk.
pub mod Window
pub mod Core
pub mod Limiter
