-- ===== src/Databases.antt =====
-- The tables that the endpoints look names up in, each with a lock of its own.
pub mod Guilddb
pub mod Userdb
pub mod Characterdb
pub mod Registerdb
