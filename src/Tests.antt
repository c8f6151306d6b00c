-- ===== src/Tests.antt =====
-- The theorems at concrete inputs, and the code's functions run on them.
mod Discovery
mod Sweep
mod Servers
mod Installed
mod Catalogue
mod Maps
mod Play
mod Content
mod Console
