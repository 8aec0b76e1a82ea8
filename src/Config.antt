-- ===== src/Config.antt =====
-- internal/config/config.go: the settings that the processes read from the environment.
pub mod Values
pub mod Load
pub mod Bounds
pub mod Started
