-- ===== src/Risk/Ledger.antt =====
-- The SQLite ledger (src/esscher/risk/ledger.py).
pub mod Rows
pub mod Monad
pub mod Passport
pub mod Queries
pub mod Candidates
pub mod Reservations
pub mod Orders
pub mod Authorize
pub mod Intents
pub mod Records
pub mod Linked
pub mod Keeps
pub mod Ensures
pub mod Holdings
pub mod Operations
pub mod Separate
pub mod Atomic
pub mod Single
pub mod Forward
pub mod Budget
pub mod Control
