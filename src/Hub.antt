-- ===== src/Hub.antt =====
-- Package hub: the central router that every agent connects to.
pub mod Seen
pub mod Router
pub mod Session
pub mod Store
pub mod Roster
pub mod Enroll
pub mod Core
pub mod Probes
pub mod Enrollment
pub mod Admission
pub mod Frames
pub mod Control
pub mod Runs
