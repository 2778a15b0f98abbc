-- ===== src/Domain.antt =====
-- domain/: the models, and the services that work on them alone.
pub mod Models
pub mod Normalization
pub mod Dedup
