-- ===== src/Infra.antt =====
-- infrastructure/: resilience, the HTTP client, the LLM router and the repositories.
pub mod Breaker
pub mod Bucket
pub mod Http
pub mod Router
pub mod Table
pub mod Programs
pub mod Sources
pub mod Health
pub mod Jobs
pub mod Users
pub mod Adapters
pub mod Prompts
pub mod Browser
pub mod Schema
