-- ===== src/Examples.antt =====
-- The theorems at concrete inputs.
mod Fixtures
mod Api
mod Credentials
mod Addresses
mod Delivery
mod Streams
mod Keys
mod Syncs
mod Bodies
mod Slot
mod Admin
mod Databases
mod Settings
mod Bundles
