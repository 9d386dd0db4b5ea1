-- ===== src/Plugins.antt =====
-- crates/plugins: the plugins that ship with the kernel. Serving is what their request handlers
-- share; each other child is one plugin.
pub mod Serving
pub mod WebSearch
pub mod FileTools
pub mod LocalModel
pub mod Storage
