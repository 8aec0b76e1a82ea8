-- ===== src/Updater.antt =====
-- cmd/mmdb-updater/main.go: the download of the databases and the switch to a new bundle.
pub mod Disk
pub mod Download
pub mod Bundle
pub mod Steps
pub mod Staged
pub mod Switched
