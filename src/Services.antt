-- ===== src/Services.antt =====
-- The services of domain/services, with the jobs of the scheduler that call them.
pub mod Registry
pub mod Checks
pub mod Aggregation
pub mod Auth
