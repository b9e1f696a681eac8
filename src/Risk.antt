-- ===== src/Risk.antt =====
-- The PAPER account risk parts (src/esscher/risk).
pub mod Reasons
pub mod Controls
pub mod Checks
pub mod Snapshots
pub mod Passport
pub mod Exposure
pub mod Policy
pub mod Ledger
pub mod Kernel
