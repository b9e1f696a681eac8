-- ===== src/Lifecycle.antt =====
-- The monitored lifecycle of one PAPER expression (src/esscher/lifecycle).
pub mod Reasons
pub mod States
pub mod Broker
pub mod Reducer
pub mod Clocks
pub mod Orders
