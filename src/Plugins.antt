-- ===== src/Plugins.antt =====
-- The plugins: the parsers of plugins/parsers, the sources of plugins/sources, and their registry.
pub mod Base
pub mod Parsers
pub mod Sources
pub mod M3u
pub mod Registry
