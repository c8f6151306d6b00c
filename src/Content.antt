-- ===== src/Content.antt =====
-- crates/reveille-core/src/content: finding missing maps and installing their packages.
pub mod Catalogue
pub mod Browse
pub mod Download
pub mod PakRadar
pub mod Archive
pub mod Resolve
