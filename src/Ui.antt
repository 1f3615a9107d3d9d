-- ===== src/Ui.antt =====
-- The scripts of the desktop application (src/ricochet-refresh/ui).
pub mod Escape
pub mod Windows
