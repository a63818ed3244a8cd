-- ===== src/Sidebar.antt =====
-- The sidebar of src/sidebar: the replica of the daemon's state, and what is drawn from it.
pub mod Reducer
pub mod Layout
pub mod Select
pub mod Live
pub mod SettingsFile
