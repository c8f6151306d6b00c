-- ===== src/Rcon.antt =====
-- crates/reveille-core/src/rcon: the remote console of a server.
pub mod Command
pub mod Reply
