-- ===== src/Tests.antt =====
-- The theorems at concrete inputs.
pub mod Codec
pub mod Data
pub mod Lifecycle
pub mod Risk
pub mod Intents
pub mod Ledger
pub mod Entries
pub mod Kernel
pub mod Settlement
pub mod Policy
pub mod Universe
pub mod Clocks
pub mod Orders
pub mod Passport
