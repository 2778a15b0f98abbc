-- ===== src/Services/Aggregation.antt =====
-- domain/services/aggregation_service.py, with interfaces/scheduler/jobs/crawl_job.py and
-- cleanup_job.py. `fetch` is any fetcher, `parse` any parser, `new_id` is `uuid4`, `now` the clock,
-- and `W` what they work on. Both repositories work in one session, as `_AggFactory` of app.py has it,
-- which is not the one that `run_once` opens. A flush that fails rolls that session's transaction back,
-- and until it is told to roll back it refuses every statement with a `PendingRollbackError`. The
-- flush of a new job is put at its `add`; its id is a new one of `uuid4`.
pub mod Records
pub mod Saves
pub mod Refined
use mini_agent_go.Prelude.{
  ℕ, zero, suc, ◌+◌, ◌-◌, ◌*◌, ◌/◌, ◌%◌, ◌≤◌, ◌<◌, ◌≡◌, refl, sym, ap, ◌∙◌, ◌≢◌, ◌↔◌, ◌⊎◌, inl, inr,
  Bool, true, false, not, ◌&&◌, ◌||◌, Option, none, some, List, [], ◌∷◌, ◌++◌, map, arith, ltb, leb,
  eqb, if◌then◌else◌, eqb_iff, Bool-cases, Option-cases, is_some, get_or, length, take, filter, all,
  find, All, length-append, length-filter, length-take, length-map, All-append, Text, codes,
  empty_text, is_empty, or_text, some_text, all_text, ◌==◌, decimal, eq_iff, eq_refl, eq-false,
  eq_sym, Outcome, ok, err, ◌>>=◌, >>=-eq-ok,
}
use mini_agent_go.Prelude.Dict.{Dict}
use mini_agent_go.Core.Exceptions.{Exn, raise, value_error, pending_rollback}
use mini_agent_go.Domain.Models.{
  Json, TvProgram, TvListSource, CrawlJob, JobStatus, running, success, failed, partial_failure,
}
use mini_agent_go.Domain.Normalization.{normalize_title}
use mini_agent_go.Domain.Dedup.{merge}
use mini_agent_go.Infra.Http.{FetchResult}
use mini_agent_go.Infra.Table.{Table}
use mini_agent_go.Infra.Programs
use mini_agent_go.Infra.Programs.{ProgramRow, ProgramColumn, program_cell}
use mini_agent_go.Infra.Jobs
use mini_agent_go.Infra.Jobs.{JobRow, JobColumn, job_cell}
use mini_agent_go.Services.Checks.{headers_or_none}

-- `_apply_norm`
unfoldable pub apply_norm : TvProgram → TvProgram
apply_norm p = record p { title = normalize_title p.title }

-- The job that `run_once` starts with.
unfoldable pub new_job : Text → ℕ → TvListSource → CrawlJob
new_job id started s = record {
  id = id;
  source_id = s.id;
  status = running;
  started_at = started;
  finished_at = none;
  items_fetched = 0;
  items_saved = 0;
  error = none;
  trace_id = none;
}

-- `async with self.session_factory() as session, session.begin()`: the way in, and the way out with
-- a commit or a rollback, on all that a crawl works on.
pub record Factory (S : Type 0) : Type 0 where
  pub enter : S → Outcome Exn (Unit {0}) × S
  pub leave : Bool → S → Outcome Exn (Unit {0}) × S

-- `PendingRollbackError`
abbrev pub needs_rollback : Exn
needs_rollback = record {
  cls = pending_rollback;
  message =
      codes
        "This Session's transaction has been rolled back due to a previous exception during flush.";
}

module _ {W : Type 0} (fetch : Text → Option (Dict Text) → W → Outcome Exn FetchResult × W)
    (parse : Text → Text → W → Outcome Exn (List TvProgram) × W) (new_id : W → Text) (now : W → ℕ)
    (repr : Json → Text) (programs : Table ProgramRow ProgramColumn program_cell)
    (jobs : Table JobRow JobColumn job_cell) where
  pub record Crawl : Type 0 where
    pub program_rows : programs.Store
    pub job_rows : jobs.Store
    pub world : W
    -- the session takes statements: no flush of it has failed
    pub active : Bool

  -- after one `upsert`: count it and go on, or stop
  saved_one :
      (ℕ → programs.Store → Outcome Exn (Unit {0}) × (ℕ × programs.Store))
      → ℕ
      → Outcome Exn TvProgram × programs.Store
      → Outcome Exn (Unit {0}) × (ℕ × programs.Store)
  saved_one next saved (ok p, st) = next (saved + 1) st
  saved_one next saved (err e, st) = (err e, (saved, st))

  -- the loop over the programs, at time `at`, with `saved` so far
  unfoldable pub save_all :
      ℕ → List TvProgram → ℕ → programs.Store → Outcome Exn (Unit {0}) × (ℕ × programs.Store)
  unfolding saved_one
  save_all at [] saved st = (ok tt, (saved, st))
  save_all at (p ∷ ps) saved st =
      saved_one (save_all at ps) saved (Programs.upsert repr programs at p st)

  -- what `run_once` has when it has tried: the number of programs, `saved`, and the state
  pub record Tried : Type 0 where
    pub outcome : Outcome Exn ℕ
    pub saved : ℕ
    pub state : Crawl

  stopped : Exn → ℕ → Crawl → Tried
  stopped e n t = record { outcome = err e; saved = n; state = t }

  pub kept : ℕ → Crawl → Outcome Exn (Unit {0}) × (ℕ × programs.Store) → Tried
  kept count t (ok u, (n, st)) = record {
    outcome = ok count;
    saved = n;
    state = record t { program_rows = st };
  }
  kept count t (err e, (n, st)) = record {
    outcome = err e;
    saved = n;
    state = record t { program_rows = st; job_rows = jobs.rolled_back t.job_rows; active = false };
  }

  -- the loop in a session that refuses statements
  blocked : List TvProgram → Crawl → Tried
  unfolding stopped
  blocked [] t = record { outcome = ok 0; saved = 0; state = t }
  blocked (p ∷ ps) t = stopped needs_rollback 0 t

  -- the end of the `async with`: what the body raised is raised again, if leaving raises nothing
  after_leave : Tried → Outcome Exn (Unit {0}) × Crawl → Tried
  after_leave r (ok u, t) = record r { state = t }
  after_leave r (err e, t) = record r { outcome = err e; state = t }

  abbrev has_worked : Tried → Bool
  has_worked r = elim r.outcome [ ok n ↦ true | err e ↦ false ]

  pub saved_by : List TvProgram → Crawl → Tried
  unfolding save_all kept blocked
  saved_by ps t =
      if t.active
      then kept (length ps) t (save_all (now t.world) ps 0 t.program_rows)
      else blocked ps t

  in_session : Factory Crawl → List TvProgram → Outcome Exn (Unit {0}) × Crawl → Tried
  unfolding stopped saved_by after_leave
  in_session f ps (err e, t) = stopped e 0 t
  in_session f ps (ok u, t) =
      let r = saved_by ps t in after_leave r (f.leave (has_worked r) r.state)

  save : Option (Factory Crawl) → List TvProgram → Crawl → Tried
  unfolding saved_by in_session
  save none ps t = saved_by ps t
  save (some f) ps t = in_session f ps (f.enter t)

  parsed : Option (Factory Crawl) → Crawl → Outcome Exn (List TvProgram) × W → Tried
  unfolding stopped save apply_norm merge
  parsed factory t (err e, w) = stopped e 0 (record t { world = w })
  parsed factory t (ok ps, w) = save factory (merge (map apply_norm ps)) (record t { world = w })

  fetched : Option (Factory Crawl) → TvListSource → Crawl → Outcome Exn FetchResult × W → Tried
  unfolding stopped parsed
  fetched factory s t (err e, w) = stopped e 0 (record t { world = w })
  fetched factory s t (ok r, w) = parsed factory t (parse r.body s.id w)

  -- the `try` block up to the saves
  unfoldable pub try_once : Option (Factory Crawl) → TvListSource → Crawl → Tried
  unfolding stopped fetched
  try_once factory s t =
      let url = some_text s.url in
      if is_empty url
      then stopped
          (record { cls = value_error; message = codes "source " ++ (s.id ++ codes " has no url") })
          0 t
      else fetched factory s t (fetch url (headers_or_none s.headers) t.world)

  -- the job after a success, and after a failure
  unfoldable pub succeeded : CrawlJob → ℕ → ℕ → ℕ → CrawlJob
  succeeded job count saved at = record job {
    status = success;
    items_fetched = count;
    items_saved = saved;
    finished_at = some at;
  }

  unfoldable pub gave_up : CrawlJob → Exn → ℕ → ℕ → CrawlJob
  gave_up job e saved at = record job {
    status = if ltb 0 saved then partial_failure else failed;
    error = some (take 1000 e.message);
    finished_at = some at;
    items_saved = saved;
  }

  written : Crawl → CrawlJob → Crawl
  written t job = record t { job_rows = Jobs.update jobs job t.job_rows }

  -- `self.job_repo.add`: in a session that refuses statements the job waits for a flush
  pub added : CrawlJob → Crawl → Outcome Exn jobs.Store
  added job t = if t.active then Jobs.add jobs job t.job_rows else ok t.job_rows

  -- the update of the job and the end, in a session that takes statements
  pub finish : CrawlJob → Outcome Exn ℕ → ℕ → Crawl → Outcome Exn CrawlJob × Crawl
  unfolding succeeded gave_up written
  finish job (ok count) saved t =
      let job' = succeeded job count saved (now t.world) in (ok job', written t job')
  finish job (err e) saved t = (err e, written t (gave_up job e saved (now t.world)))

  -- in one that does not, each of the two updates raises, the second out of the `except`
  finish_tried : CrawlJob → Tried → Outcome Exn CrawlJob × Crawl
  unfolding finish
  finish_tried job r =
      let done = finish job r.outcome r.saved r.state in
      if r.state.active then done else (err needs_rollback, r.state)

  begun :
      Option (Factory Crawl)
      → TvListSource
      → CrawlJob
      → Crawl
      → Outcome Exn jobs.Store
      → Outcome Exn CrawlJob × Crawl
  unfolding try_once finish_tried
  begun factory s job t (err e) = (
    err e,
    record t {
      program_rows = programs.rolled_back t.program_rows;
      job_rows = jobs.rolled_back t.job_rows;
      active = false;
    },
  )
  begun factory s job t (ok js) = finish_tried job (try_once factory s (record t { job_rows = js }))

  unfoldable pub run_once :
      Option (Factory Crawl) → TvListSource → Crawl → Outcome Exn CrawlJob × Crawl
  unfolding new_job begun added
  run_once factory s t =
      let job = new_job (new_id t.world) (now t.world) s in begun factory s job t (added job t)

  -- the loop of `crawl_all_active`, on the sources that are active
  unfoldable pub crawl_all_active : Option (Factory Crawl) → List TvListSource → Crawl → Crawl
  unfolding run_once
  crawl_all_active factory [] t = t
  crawl_all_active factory (s ∷ ss) t = crawl_all_active factory ss (run_once factory s t).1

-- `cleanup_old_jobs`, on what `repo.list(limit=10000)` gives; a day is in the units of the clock
unfoldable pub cleanup_old_jobs : ℕ → ℕ → ℕ → Outcome Exn (List CrawlJob) → Outcome Exn ℕ
cleanup_old_jobs at day keep_days listed = do
  jobs ← listed
  ok (length (filter (λ j. ltb (j.started_at + keep_days * day) at) jobs))
