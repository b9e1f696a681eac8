-- ===== src/Autonomy.antt =====
-- The autonomous universe and its capital (src/esscher/autonomy).
pub mod Universe
