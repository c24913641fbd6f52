-- ===== src/Config.antt =====
-- src/config/env.js: the settings that a process reads from its environment when it starts.
pub mod Values
pub mod Load
pub mod Checked
pub mod Started
