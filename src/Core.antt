-- ===== src/Core.antt =====
-- core/*.py: the exception classes, the settings, and the TTL cache.
pub mod Exceptions
pub mod Settings
pub mod Cache
