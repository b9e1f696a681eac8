-- ===== src/Execution.antt =====
-- Permits (src/esscher/execution).
pub mod Models
pub mod Expression
