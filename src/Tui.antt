-- ===== src/Tui.antt =====
-- internal/tui: menus, dropdowns and scrolled text in popups.
pub mod Popup
