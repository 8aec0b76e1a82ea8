-- ===== src/KeyStore.antt =====
-- internal/keystore/nats.go: the managed credentials, as records in a key-value bucket of NATS that
-- are written under optimistic concurrency, and their synchronisation with the verifier.
pub mod Records
pub mod Operations
pub mod Inversion
pub mod Changed
pub mod Issued
pub mod Sync
pub mod Listing
pub mod Listed
pub mod Written
pub mod Rewritten
pub mod Opening
pub mod Synced
pub mod Rounds
pub mod Follows
