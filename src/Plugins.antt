-- ===== src/Plugins.antt =====
-- pkg/plugins: the plugins with their files and versions, and the manager of plugins that are installed
-- from local paths.
pub mod Version
pub mod Files
pub mod Local
pub mod Copies
pub mod Installed
pub mod Removed
