-- ===== src/Api/Admin.antt =====
-- interfaces/api/routers/admin.py, and `_AggFactory` of interfaces/api/app.py, which these routes
-- crawl with. The state is what is committed to the database.
pub mod Crawls
use mini_agent_go.Infra.Sources.{SourceRow, SourceColumn, source_cell}
use mini_agent_go.Api.Seed.{Stats, Draw, Tables, seed_if_empty, reset_and_seed}
use mini_agent_go.Prelude.{
  ℕ, zero, suc, ◌+◌, ◌-◌, ◌*◌, ◌/◌, ◌%◌, ◌≤◌, ◌<◌, ◌≡◌, refl, sym, ap, ◌∙◌, ◌≢◌, ◌↔◌, ◌⊎◌, inl, inr,
  Bool, true, false, not, ◌&&◌, ◌||◌, Option, none, some, List, [], ◌∷◌, ◌++◌, map, arith, ltb, leb,
  eqb, if◌then◌else◌, eqb_iff, Bool-cases, Option-cases, is_some, get_or, length, take, filter, all,
  find, All, length-append, length-filter, length-take, length-map, All-append, Text, codes,
  empty_text, is_empty, or_text, some_text, all_text, ◌==◌, decimal, eq_iff, eq_refl, eq-false,
  eq_sym, Outcome, ok, err, ◌>>=◌, >>=-eq-ok,
}
use mini_agent_go.Prelude.Dict.{Dict}
use mini_agent_go.Core.Exceptions.{Exn, raise, http}
use mini_agent_go.Core.Settings.{Settings, is_production}
use mini_agent_go.Domain.Models.{Json, TvProgram, TvListSource, CrawlJob, job_value}
use mini_agent_go.Infra.Http.{FetchResult}
use mini_agent_go.Infra.Table.{Table}
use mini_agent_go.Infra.Programs.{ProgramRow, ProgramColumn, program_cell}
use mini_agent_go.Infra.Sources
use mini_agent_go.Infra.Sources.{SourceRow, SourceColumn, source_cell}
use mini_agent_go.Infra.Jobs.{JobRow, JobColumn, job_cell}
use mini_agent_go.Plugins.Registry.{PluginRegistry, list_source_types, list_parsers}
use mini_agent_go.Services.Aggregation.{Crawl, Factory, run_once}

-- `GET /admin/plugins`; the registry may not be there yet
unfoldable pub list_plugins :
    {W Source Parser : Type 0}
    → Option (PluginRegistry W Source Parser)
    → Outcome Exn (List Text × List Text)
list_plugins none = raise (http 503) (codes "registry not initialized")
list_plugins (some r) = ok (list_source_types r, list_parsers r)

pub record CrawlOut : Type 0 where
  pub job_id : Text
  pub status : Text

-- one entry of the results of `POST /admin/crawl-all`
pub record CrawlLine : Type 0 where
  pub source_id : Text
  pub answer : Outcome Text CrawlOut

-- `POST /admin/seed` and `POST /admin/reseed`: the guards, round what they run on the tables `db`.
-- `ready` tells whether `app.state` has a session factory.
guarded :
    {A B : Type 0}
    → (Text → Text)
    → Settings
    → Text
    → Bool
    → (B → Outcome Exn A × B)
    → B
    → Outcome Exn A × B
unfolding is_production
guarded lower s refusal ready run db =
    let done = run db in
    if is_production lower s
    then (raise (http 403) refusal, db)
    else if ready
    then done
    else (raise (http 503) (codes "session_factory not initialized"), db)

module _ (lower : Text → Text) (s : Settings) (ready : Bool)
    (programs : Table ProgramRow ProgramColumn program_cell)
    (sources : Table SourceRow SourceColumn source_cell)
    (jobs : Table JobRow JobColumn job_cell) where
  unfoldable pub seed_data :
      Draw
      → Tables programs sources jobs
      → Outcome Exn (Option Stats) × Tables programs sources jobs
  unfolding guarded
  seed_data d db =
      guarded lower s (codes "seed endpoint disabled in production") ready
        (seed_if_empty programs sources jobs d) db

  unfoldable pub reseed_data :
      Draw
      → Tables programs sources jobs
      → Outcome Exn (Option Stats) × Tables programs sources jobs
  unfolding guarded
  reseed_data d db =
      guarded lower s (codes "reseed endpoint disabled in production") ready
        (reset_and_seed programs sources jobs d) db

module _ {W : Type 0} (fetch : Text → Option (Dict Text) → W → Outcome Exn FetchResult × W)
    (parse : Text → Text → W → Outcome Exn (List TvProgram) × W) (new_id : W → Text) (now : W → ℕ)
    (repr : Json → Text) (programs : Table ProgramRow ProgramColumn program_cell)
    (jobs : Table JobRow JobColumn job_cell)
    (factory : Factory (Crawl fetch parse new_id now repr programs jobs)) where
  -- the way out of `async with session_factory() as session` without a commit: the session is
  -- closed, which rolls back what is pending, and the next one sees what is committed
  unfoldable pub session_closed :
      Crawl fetch parse new_id now repr programs jobs
      → Crawl fetch parse new_id now repr programs jobs
  session_closed t = record t {
    program_rows = programs.rolled_back t.program_rows;
    job_rows = jobs.rolled_back t.job_rows;
    active = true;
  }

  -- `_AggFactory.run_once`: both repositories work in one session, opened for the crawl
  unfoldable pub agg_run_once :
      TvListSource
      → Crawl fetch parse new_id now repr programs jobs
      → Outcome Exn CrawlJob × Crawl fetch parse new_id now repr programs jobs
  unfolding session_closed
  agg_run_once s t =
      let (r, t') = run_once fetch parse new_id now repr programs jobs (some factory) s t in
      (r, session_closed t')

  abbrev out_of : CrawlJob → CrawlOut
  out_of job = record { job_id = job.id; status = job_value job.status }

  answered : TvListSource → Outcome Exn CrawlJob → CrawlLine
  answered s (ok job) = record { source_id = s.id; answer = ok (out_of job) }
  answered s (err e) = record { source_id = s.id; answer = err e.message }

  crawl_lines :
      List TvListSource
      → Crawl fetch parse new_id now repr programs jobs
      → List CrawlLine × Crawl fetch parse new_id now repr programs jobs
  unfolding answered
  crawl_lines [] t = ([], t)
  crawl_lines (s ∷ ss) t =
      let (r, t') = agg_run_once s t in
      let (ls, t'') = crawl_lines ss t' in (answered s r ∷ ls, t'')

  crawled : Outcome Exn CrawlJob → Outcome Exn CrawlOut
  crawled (ok job) = ok (out_of job)
  crawled (err e) = err e

  crawl_found :
      Crawl fetch parse new_id now repr programs jobs
      → Outcome Exn (Option TvListSource)
      → Outcome Exn CrawlOut × Crawl fetch parse new_id now repr programs jobs
  unfolding crawled
  crawl_found t (err e) = (err e, t)
  crawl_found t (ok none) = (raise (http 404) (codes "source not found"), t)
  crawl_found t (ok (some s)) = let (r, t') = agg_run_once s t in (crawled r, t')

  listed :
      Crawl fetch parse new_id now repr programs jobs
      → Outcome Exn (List TvListSource)
      → Outcome Exn (ℕ × List CrawlLine) × Crawl fetch parse new_id now repr programs jobs
  unfolding crawl_lines
  listed t (err e) = (err e, t)
  listed t (ok ss) = let (ls, t') = crawl_lines ss t in (ok (length ss, ls), t')

  module _ (sources : Table SourceRow SourceColumn source_cell) where
    -- `POST /admin/crawl/{source_id}`, with an aggregator
    unfoldable pub trigger_crawl :
        Text
        → sources.Store
        → Crawl fetch parse new_id now repr programs jobs
        → Outcome Exn CrawlOut × Crawl fetch parse new_id now repr programs jobs
    unfolding crawl_found
    trigger_crawl source_id st t = crawl_found t (Sources.get sources source_id st)

    -- `POST /admin/crawl-all`, with an aggregator
    unfoldable pub trigger_crawl_all :
        sources.Store
        → Crawl fetch parse new_id now repr programs jobs
        → Outcome Exn (ℕ × List CrawlLine) × Crawl fetch parse new_id now repr programs jobs
    unfolding listed
    trigger_crawl_all st t = listed t (Sources.list sources (some (codes "active")) st)
