-- ===== src/Services/Aggregation/Records.antt =====
-- What a crawl leaves in the job repository.
use mini_agent_go.Prelude.{
  ℕ, ◌≡◌, refl, sym, ap, ◌∙◌, Bool, true, false, Option, none, some, List, arith, ltb,
  if◌then◌else◌, is_some, take, Text, Outcome, ok, err,
}
use mini_agent_go.Prelude.Dict.{Dict}
use mini_agent_go.Core.Exceptions.{Exn}
use mini_agent_go.Domain.Models.{
  Json, TvProgram, TvListSource, CrawlJob, success, failed, partial_failure,
}
use mini_agent_go.Infra.Http.{FetchResult}
use mini_agent_go.Infra.Table.{Table}
use mini_agent_go.Infra.Programs.{ProgramRow, ProgramColumn, program_cell}
use mini_agent_go.Infra.Jobs.{JobRow, JobColumn, job_cell, by_id, add, update, new_row}
use mini_agent_go.Services.Aggregation.Saves.{try_once-IsTried, IsTried, AreIsolated, IsHeld}
use mini_agent_go.Infra.Jobs.Updates.{find-update-add, update-rolled_back}
use mini_agent_go.Services.Aggregation.{
  Factory, added, needs_rollback, Tried, new_job, run_once, Crawl, finish_tried, succeeded, gave_up,
  try_once, begun, finish, written,
}

-- The job of a crawl of `s` that ended with `r`: a success has saved what it fetched, and is what the
-- crawl returns; a failure is partial if anything was saved, keeps at most 1000 characters of the
-- error, and the error is raised again.
abbrev pub IsEnded : TvListSource → CrawlJob → Outcome Exn CrawlJob → Type 0
IsEnded s job (ok j) =
    (j ≡ job)
    × (job.status ≡ success)
    × (job.items_saved ≡ job.items_fetched)
    × (job.error ≡ none)
    × (job.source_id ≡ s.id)
IsEnded s job (err e) =
    (job.status ≡ (if ltb 0 job.items_saved then partial_failure else failed))
    × (job.error ≡ some (take 1000 e.message))
    × (job.items_fetched ≡ 0)
    × (job.source_id ≡ s.id)

module _ {W : Type 0} (fetch : Text → Option (Dict Text) → W → Outcome Exn FetchResult × W)
    (parse : Text → Text → W → Outcome Exn (List TvProgram) × W) (new_id : W → Text) (now : W → ℕ)
    (repr : Json → Text) (programs : Table ProgramRow ProgramColumn program_cell)
    (jobs : Table JobRow JobColumn job_cell) where
  -- the row of a job that was added and then updated
  pub find-written :
      (job job' : CrawlJob) (before js : jobs.Store)
      → jobs.find by_id job.id before ≡ none
      → add jobs job before ≡ ok js
      → job'.id ≡ job.id
      → job'.source_id ≡ job.source_id
      → job'.started_at ≡ job.started_at
      → jobs.find by_id job.id (update jobs job' js) ≡ some (new_row job')
  find-written job job' before js fresh put i so b =
      let (st', put', found) = find-update-add jobs job job' before fresh i so b in
      let same : js ≡ st' = cc in
      ap (λ (q : jobs.Store). jobs.find by_id job.id (update jobs job' q)) same ∙ found

  -- what `run_once` promises of its result and of the repository after it
  abbrev pub IsFinished :
      TvListSource
      → Text
      → Outcome Exn CrawlJob × Crawl fetch parse new_id now repr programs jobs
      → Type 0
  IsFinished s id (out, t') =
      (job : CrawlJob) × (jobs.find by_id id t'.job_rows ≡ some (new_row job))
      × IsEnded s job out
      × (is_some job.finished_at ≡ true)

  finish-IsFinished :
      (s : TvListSource) (id : Text) (started : ℕ) (before : jobs.Store)
      (t : Crawl fetch parse new_id now repr programs jobs) (out : Outcome Exn ℕ) (saved : ℕ)
      → jobs.find by_id id before ≡ none
      → add jobs (new_job id started s) before ≡ ok t.job_rows
      → ((n : ℕ) → out ≡ ok n → saved ≡ n)
      → IsFinished s id
          (finish fetch parse new_id now repr programs jobs (new_job id started s) out saved t)
  unfolding finish written
  finish-IsFinished s id started before t (ok n) saved fresh put whole =
      let job = new_job id started s in
      let at = now t.world in
      (
        succeeded fetch parse new_id now repr programs jobs job n saved at,
        (unfold new_job succeeded in
            find-written job (succeeded fetch parse new_id now repr programs jobs job n saved at)
              before t.job_rows fresh put refl refl refl),
        (unfold new_job succeeded in (refl, refl, whole n refl, refl, refl)),
        (unfold succeeded in refl),
      )
  finish-IsFinished s id started before t (err e) saved fresh put whole =
      let job = new_job id started s in
      let at = now t.world in
      (
        gave_up fetch parse new_id now repr programs jobs job e saved at,
        (unfold new_job gave_up in
            find-written job (gave_up fetch parse new_id now repr programs jobs job e saved at)
              before t.job_rows fresh put refl refl refl),
        (unfold new_job gave_up in (refl, refl, refl, refl)),
        (unfold gave_up in refl),
      )

  -- How `run_once` ends in a state, by whether the session takes statements: the job is stored with
  -- that end; or what is committed is left and no more, and the error is that of the session.
  abbrev pub IsClosed :
      TvListSource
      → Text
      → Crawl fetch parse new_id now repr programs jobs
      → Outcome Exn CrawlJob × Crawl fetch parse new_id now repr programs jobs
      → Bool
      → Type 0
  IsClosed s id t r true = IsFinished s id r
  IsClosed s id t r false =
      (r.0 ≡ err needs_rollback)
      × (r.1.program_rows ≡ programs.rolled_back t.program_rows)
      × (r.1.job_rows ≡ jobs.rolled_back t.job_rows)

  -- a crawl leaves alone what was committed before it, and ends as it should
  pub record IsLeft (s : TvListSource) (id : Text)
      (t : Crawl fetch parse new_id now repr programs jobs)
      (r : Outcome Exn CrawlJob × Crawl fetch parse new_id now repr programs jobs) : Type 0 where
    pub programs_base : programs.rolled_back r.1.program_rows ≡ programs.rolled_back t.program_rows
    pub jobs_base : jobs.rolled_back r.1.job_rows ≡ jobs.rolled_back t.job_rows
    pub closed : IsClosed s id t r r.1.active

  pub added-active :
      (job : CrawlJob) (t : Crawl fetch parse new_id now repr programs jobs)
      → t.active ≡ true
      → added fetch parse new_id now repr programs jobs job t ≡ add jobs job t.job_rows
  unfolding added
  added-active job t a = go t.active a
    where
      go :
          (b : Bool)
          → b ≡ true
          → (if b then add jobs job t.job_rows else ok t.job_rows) ≡ add jobs job t.job_rows
      go true h = refl
      go false h = absurd (ground (arith, h))

  -- the two updates of the job write nothing else
  finish-same :
      (job : CrawlJob) (out : Outcome Exn ℕ) (saved : ℕ)
      (t : Crawl fetch parse new_id now repr programs jobs)
      → let t' = (finish fetch parse new_id now repr programs jobs job out saved t).1 in
        (t'.program_rows ≡ t.program_rows)
        × (jobs.rolled_back t'.job_rows ≡ jobs.rolled_back t.job_rows)
        × (t'.active ≡ t.active)
  unfolding finish written
  finish-same job (ok n) saved t = (refl, update-rolled_back jobs _ t.job_rows, refl)
  finish-same job (err e) saved t = (refl, update-rolled_back jobs _ t.job_rows, refl)

  -- the end of the crawl leaves alone what is committed
  finish_tried-rolled_back :
      (job : CrawlJob) (r : Tried fetch parse new_id now repr programs jobs)
      → let t' = (finish_tried fetch parse new_id now repr programs jobs job r).1 in
        (programs.rolled_back t'.program_rows ≡ programs.rolled_back r.state.program_rows)
        × (jobs.rolled_back t'.job_rows ≡ jobs.rolled_back r.state.job_rows)
  unfolding finish_tried
  finish_tried-rolled_back job r = go r.state.active
    where
      done : Outcome Exn CrawlJob × Crawl fetch parse new_id now repr programs jobs
      done = finish fetch parse new_id now repr programs jobs job r.outcome r.saved r.state

      go :
          (b : Bool)
          → let t' = (if b then done else (err needs_rollback, r.state)).1 in
            (programs.rolled_back t'.program_rows ≡ programs.rolled_back r.state.program_rows)
            × (jobs.rolled_back t'.job_rows ≡ jobs.rolled_back r.state.job_rows)
      go true =
          let (p, j, k) = finish-same job r.outcome r.saved r.state in
          (ap programs.rolled_back p, j)
      go false = (refl, refl)

  -- Any crawl of a source, from a session that takes statements, leaves alone what was committed.
  pub run_once-rolled_back :
      (factory : Option (Factory (Crawl fetch parse new_id now repr programs jobs)))
      (s : TvListSource) (t : Crawl fetch parse new_id now repr programs jobs)
      → AreIsolated fetch parse new_id now repr programs jobs factory
      → t.active ≡ true
      → let t' = (run_once fetch parse new_id now repr programs jobs factory s t).1 in
        (programs.rolled_back t'.program_rows ≡ programs.rolled_back t.program_rows)
        × (jobs.rolled_back t'.job_rows ≡ jobs.rolled_back t.job_rows)
  unfolding run_once
  run_once-rolled_back factory s t i a =
      let job = new_job (new_id t.world) (now t.world) s in
      rw (added-active job t a) (go job (add jobs job t.job_rows) refl)
    where
      go :
          (job : CrawlJob) (o : Outcome Exn jobs.Store)
          → add jobs job t.job_rows ≡ o
          → let t' = (begun fetch parse new_id now repr programs jobs factory s job t o).1 in
            (programs.rolled_back t'.program_rows ≡ programs.rolled_back t.program_rows)
            × (jobs.rolled_back t'.job_rows ≡ jobs.rolled_back t.job_rows)
      go job (err e) h =
          unfold begun in
          (programs.rolled_back_idem t.program_rows, jobs.rolled_back_idem t.job_rows)
      go job (ok js) h =
          let t' = record t { job_rows = js } in
          let r = try_once fetch parse new_id now repr programs jobs factory s t' in
          let (p, j) = finish_tried-rolled_back job r in
          let tried = try_once-IsTried fetch parse new_id now repr programs jobs factory s t' i a in
          unfold begun in
          (
            p ∙ tried.programs_base,
            j
                ∙ tried.jobs_base
                ∙ (unfold add in jobs.rolled_back-insert (new_row job) t.job_rows js h),
          )

  closed-at :
      (s : TvListSource) (id : Text) (t : Crawl fetch parse new_id now repr programs jobs)
      (r : Outcome Exn CrawlJob × Crawl fetch parse new_id now repr programs jobs) (b b' : Bool)
      → b ≡ b'
      → IsClosed s id t r b'
      → IsClosed s id t r b
  closed-at s id t r b b' h x = rw h x

  finish-IsLeft :
      (s : TvListSource) (t : Crawl fetch parse new_id now repr programs jobs) (js : jobs.Store)
      (r : Tried fetch parse new_id now repr programs jobs)
      → jobs.find by_id (new_id t.world) t.job_rows ≡ none
      → add jobs (new_job (new_id t.world) (now t.world) s) t.job_rows ≡ ok js
      → jobs.rolled_back js ≡ jobs.rolled_back t.job_rows
      → IsTried fetch parse new_id now repr programs jobs t.program_rows js r
      → IsLeft s (new_id t.world) t (
          finish_tried fetch parse new_id now repr programs jobs
            (new_job (new_id t.world) (now t.world) s)
            r)
  unfolding finish_tried
  finish-IsLeft s t js r fresh put base h = go r.state.active refl h.held
    where
      job : CrawlJob
      job = new_job (new_id t.world) (now t.world) s

      done : Outcome Exn CrawlJob × Crawl fetch parse new_id now repr programs jobs
      done = finish fetch parse new_id now repr programs jobs job r.outcome r.saved r.state

      go :
          (b : Bool)
          → r.state.active ≡ b
          → IsHeld fetch parse new_id now repr programs jobs t.program_rows js r b
          → IsLeft s (new_id t.world) t (if b then done else (err needs_rollback, r.state))
      go true a (same, whole) =
          let (p, j, k) = finish-same job r.outcome r.saved r.state in
          record {
            programs_base = ap programs.rolled_back p ∙ h.programs_base;
            jobs_base = j ∙ h.jobs_base ∙ base;
            closed = closed-at s (new_id t.world) t done _ true (k ∙ a) (
                finish-IsFinished s (new_id t.world) (now t.world) t.job_rows r.state r.outcome
                  r.saved fresh (put ∙ ap ok (sym same)) whole);
          }
      go false a (p, j) = record {
        programs_base = h.programs_base;
        jobs_base = h.jobs_base ∙ base;
        closed =
            closed-at s (new_id t.world) t (err needs_rollback, r.state) _ false a
              (refl, p, j ∙ base);
      }

  -- Any crawl of a source, from a session that takes statements: what was committed before is not
  -- touched. If the session still takes statements at the end, the job is stored with that end.
  pub run_once-IsLeft :
      (factory : Option (Factory (Crawl fetch parse new_id now repr programs jobs)))
      (s : TvListSource) (t : Crawl fetch parse new_id now repr programs jobs)
      → AreIsolated fetch parse new_id now repr programs jobs factory
      → t.active ≡ true
      → jobs.find by_id (new_id t.world) t.job_rows ≡ none
      → IsLeft s (new_id t.world) t (run_once fetch parse new_id now repr programs jobs factory s t)
  unfolding run_once
  run_once-IsLeft factory s t i a h =
      let job = new_job (new_id t.world) (now t.world) s in
      let (js, put, found) =
        find-update-add jobs job job t.job_rows (unfold new_job in h) refl refl refl in
      let t' = record t { job_rows = js } in
      let r = try_once fetch parse new_id now repr programs jobs factory s t' in
      let base : jobs.rolled_back js ≡ jobs.rolled_back t.job_rows =
        unfold add in jobs.rolled_back-insert (new_row job) t.job_rows js put in
      rw (added-active job t a, put)
        (unfold begun in
          finish-IsLeft s t js r h put base
            (try_once-IsTried fetch parse new_id now repr programs jobs factory s t' i a))
