-- ===== src/Tests.antt =====
-- Runs of the model at concrete inputs.
mod Samples
mod CoreRuns
mod DomainRuns
mod InfraRuns
mod StorageRuns
mod ServiceRuns
mod ApiRuns
mod RouteRuns
mod BrowserRuns
mod DashboardRuns
mod PluginRuns
mod SchemaRuns
mod AdapterRuns
