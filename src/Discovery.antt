-- ===== src/Discovery.antt =====
-- crates/reveille-core/src/discovery: the values a sweep reports (model.rs), and the wire formats
-- of the GameSpy master and of the game servers (protocol.rs).
pub mod Model
pub mod Cipher
pub mod Encode
pub mod Master
pub mod Fields
pub mod Status
pub mod Server
pub mod Probe
pub mod Sweep
pub mod Summary
