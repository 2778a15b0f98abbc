-- ===== src/Lib.antt =====
-- A model of the TV list aggregator, the Python program in
-- tv-list-aggregator/src/tv_list_aggregator: it crawls sources of TV listings over HTTP, parses,
-- normalizes and deduplicates the programs, stores them through SQLAlchemy repositories, watches
-- the health of its sources, and serves all that over a FastAPI application. Paths below start at
-- tv-list-aggregator/src/tv_list_aggregator.
--
-- The crawl: Services.Aggregation is `AggregationService.run_once`
-- (domain/services/aggregation_service.py), with the scheduler's crawl and cleanup jobs. It
-- fetches by any fetcher, parses by any parser, normalizes titles (Domain.Normalization,
-- normalization_service.py), merges duplicates (Domain.Dedup, dedup_service.py), and writes to the
-- program and job repositories (Infra.Programs, Infra.Jobs).
--
-- The fetcher: Infra.Http is `ResilientHTTPFetcher` (infrastructure/http/client.py). An attempt
-- takes a token of Infra.Bucket (infrastructure/resilience/rate_limiter.py), passes Infra.Breaker
-- (circuit_breaker.py) and classifies the status. The retries are tenacity's, a parameter with its
-- documented laws: four attempts at most.
--
-- The parsers: Plugins.Base, Plugins.Parsers, Plugins.Sources and Plugins.M3u are plugins/parsers
-- and plugins/sources; Plugins.Registry is plugins/registry.py and `build_registry` of
-- interfaces/api/app.py. Infra.Router is the chain of language models
-- (infrastructure/llm/llm_router.py) that the LLM parser can ask, Infra.Adapters its providers
-- (ollama_adapter.py, openai_adapter.py, anthropic_adapter.py), with the SDKs as parameters,
-- Infra.Prompts the templates of prompt_loader.py, and Infra.Browser the fetcher for pages that
-- need a browser (infrastructure/http/playwright_fetcher.py), with Playwright as a parameter.
--
-- Storage: Infra.Programs, Infra.Sources, Infra.Health, Infra.Jobs and Infra.Users are the
-- repositories of infrastructure/persistence, each with the rows of models.py. They work on
-- Infra.Table, an interface to one table of a session: find by a unique column, the rows, insert
-- with its integrity error, update, delete, clear, and the rollback to what was committed, with
-- the laws that the repositories rely on: a flush that fails rolls back the transaction;
-- Infra.Table.Bulk inserts many rows. Infra.Schema is the migration of
-- tv-list-aggregator/alembic/versions, a path from the root, and the tables that models.py
-- declares; its database is a parameter too, with Infra.Schema.Memory as an instance. The runs of
-- Tests work on Infra.Table.Log, an instance of a table.
--
-- Sources and health: Services.Registry is source_registry.py; Services.Checks is
-- health_check_service.py, the job health_check_job.py with the tick of app.py that commits or
-- rolls back, and observability/health.py.
--
-- Access: Services.Auth is auth_service.py and the seeding of users in app.py, with passlib as a
-- parameter; Api.Security is interfaces/api/security.py, with python-jose as a parameter, and
-- Api.Login is routers/auth.py. Api.Sources and Api.Admin are routers/sources.py and admin.py,
-- over what is committed. Api.Dashboard, Api.Listings and Api.Export are routers/dashboard.py,
-- programs.py, channels.py, jobs.py and export.py; Api.Seed is interfaces/api/seed.py, with its
-- data in Api.Samples. Api.Problems and Api.Stack are the middleware and the order in which
-- `create_app` puts it, Api.Handlers the exception handlers inside it, Api.Deps is
-- interfaces/api/deps.py, and Api.Lifespan start-up and shutdown as far as they touch the database
-- or may fail.
--
-- Core.Exceptions, Core.Settings and Core.Cache are core/exceptions.py, settings.py and cache.py;
-- Domain.Models is domain/models.
--
-- Conventions: a text is a list of code points, and so is a list of bytes. Natural numbers are
-- native. Times are natural numbers in the unit that each file names; a token of the bucket is
-- 60000 parts, so that a rate per minute and milliseconds give whole numbers where the code has
-- floats. What a call returns or raises is an `Outcome`; exceptions are a class and a text. A
-- clock, a random id, the network or a library is an argument, and where several tasks can
-- interleave (the cache at one key, the breaker) the interleavings are a step relation. All loops
-- are structural recursion; nothing runs on fuel.
--
-- Not modelled: the wiring of FastAPI and SQLAlchemy at start-up, the scheduler's library, logging
-- and tracing, and the web page. Log lines other than the access log are left out.
pub mod Prelude
pub mod Core
pub mod Domain
pub mod Infra
pub mod Services
pub mod Plugins
pub mod Api
pub mod Tests
