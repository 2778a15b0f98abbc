-- ===== src/Api.antt =====
-- The HTTP interface of interfaces/api.
pub mod Problems
pub mod Stack
pub mod Handlers
pub mod Security
pub mod Login
pub mod Sources
pub mod Admin
pub mod Dashboard
pub mod Listings
pub mod Export
pub mod Deps
pub mod Lifespan
pub mod Samples
pub mod Seed
