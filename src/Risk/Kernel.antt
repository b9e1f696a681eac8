-- ===== src/Risk/Kernel.antt =====
-- The risk kernel under a version 1 policy (src/esscher/risk/kernel.py): its ledger is the state,
-- its policy a parameter, and the broker's truth an argument of each call.
pub mod Truth
pub mod Control
pub mod Binding
pub mod Permit
pub mod Entry
pub mod Reconcile
pub mod Calls
pub mod Traced
pub mod Refines
pub mod Startup
pub mod Sessions
pub mod Killed
