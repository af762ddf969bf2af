-- ===== src/Sessions.antt =====
-- annotation_repository.py, the sessions of the annotators: the row that each active session has,
-- the fence that guards a write, login, takeover, logout and the heartbeat.
pub mod State
pub mod Fence
pub mod Login
pub mod Heartbeat
pub mod Guards
pub mod Rows
pub mod Branches
pub mod Moves
pub mod Lifetime
pub mod Presence
pub mod Activity
mod Examples
