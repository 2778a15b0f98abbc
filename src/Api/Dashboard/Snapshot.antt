-- ===== src/Api/Dashboard/Snapshot.antt =====
-- What the summary of the dashboard counts, and how long it is kept.
use mini_agent_go.Prelude.{
  ℕ, ◌+◌, ◌-◌, ◌*◌, ◌<◌, ◌≡◌, refl, sym, ap, ◌∙◌, Bool, none, some, List, [], ◌∷◌, map, arith, leb,
  length, length-map, Text, codes, count, ◌==◌, eq_iff, Outcome, ok, err, >>=-eq-ok, ok-injective,
}
use mini_agent_go.Prelude.Groups.{total}
use mini_agent_go.Prelude.Groups.Tally.{size_of-tally, total-tally}
use mini_agent_go.Core.Exceptions.{Exn}
use mini_agent_go.Core.Cache.{Cache, State, Clock, get}
use mini_agent_go.Core.Cache.Laws.{get_or_set-miss, get_or_set-hit}
use mini_agent_go.Domain.Models.{
  CrawlJob, TvListSource, SourceStatus, active, disabled, status_value, type_value, job_value,
}
use mini_agent_go.Infra.Table.{Table}
use mini_agent_go.Infra.Programs.{ProgramRow, ProgramColumn, program_cell}
use mini_agent_go.Infra.Programs
use mini_agent_go.Infra.Sources.{SourceRow, SourceColumn, source_cell}
use mini_agent_go.Infra.Sources
use mini_agent_go.Infra.Jobs.{JobRow, JobColumn, job_cell, new_row}
use mini_agent_go.Infra.Jobs
use mini_agent_go.Infra.Jobs.Listing.{AreListed, list-IsDescending}
use mini_agent_go.Api.Dashboard.{
  Database, Summary, loaded, summary_of, compute, summary_factory, dashboard_summary, summary_ttl,
  cache_key, hour, recent_job,
}

abbrev is_status : SourceStatus → TvListSource → Bool
is_status st s = status_value s.status == status_value st

count-map {ℓ} :
    {A : Type ℓ} (f : A → Text) (k : Text) (xs : List A)
    → count (λ j. j == k) (map f xs) ≡ count (λ x. f x == k) xs
count-map f k [] = refl
count-map f k (x ∷ xs) = omega (arith, count-map f k xs)

module _ (programs : Table ProgramRow ProgramColumn program_cell)
    (sources : Table SourceRow SourceColumn source_cell)
    (jobs : Table JobRow JobColumn job_cell) where
  abbrev Db : Type 0
  Db = Database programs sources jobs

  -- `v` is a snapshot of `db` at `now`.
  pub record IsSnapshot (now : ℕ) (db : Database programs sources jobs) (v : Summary) : Type 0 where
    pub of_sources : List TvListSource
    pub all_sources : Sources.list sources none db.source_rows ≡ ok of_sources
    pub stored : v.programs_total ≡ length (programs.rows db.program_rows)
    -- those that start later are counted too, however far ahead
    pub since_yesterday :
        v.programs_last_24h
        ≡ count (λ r. leb (now - 24 * hour) r.start_at) (programs.rows db.program_rows)
    pub sources_counted : v.sources_total ≡ length of_sources
    pub active_counted : v.sources_active ≡ count (is_status active) of_sources
    pub disabled_counted : v.sources_disabled ≡ count (is_status disabled) of_sources
    pub types_add_up : total v.sources_by_type ≡ v.sources_total
    -- the ten newest jobs, of any source and status
    pub of_jobs : List CrawlJob
    pub recent : v.jobs_recent ≡ map recent_job of_jobs
    pub newest : AreListed none none 10 (jobs.rows db.job_rows) (map new_row of_jobs)
    pub statuses_add_up : total v.jobs_by_status ≡ length v.jobs_recent

  compute-IsSnapshot :
      (now : ℕ) (db : Db) (v : Summary)
      → compute programs sources jobs now db ≡ ok v
      → IsSnapshot now db v
  unfolding compute summary_of Programs.count status_value
  compute-IsSnapshot now db v h =
      let (ss, e, h1) = >>=-eq-ok (Sources.list sources none db.source_rows) _ h in
      let (js, e2, h2) = >>=-eq-ok (Jobs.list jobs none none 10 db.job_rows) _ h1 in
      let same = ok-injective (summary_of programs sources jobs now db ss js) v h2 in
      rw (← same) (record {
        of_sources = ss;
        all_sources = e;
        stored = programs.size-rows db.program_rows;
        since_yesterday = refl;
        sources_counted = refl;
        active_counted =
            size_of-tally ◌==◌ eq_iff (codes "active") (map (λ s. status_value s.status) ss)
            ∙ count-map (λ s. status_value s.status) (codes "active") ss;
        disabled_counted =
            size_of-tally ◌==◌ eq_iff (codes "disabled") (map (λ s. status_value s.status) ss)
            ∙ count-map (λ s. status_value s.status) (codes "disabled") ss;
        types_add_up =
            total-tally ◌==◌ eq_iff (map (λ s. type_value s.type) ss)
            ∙ length-map (λ s. type_value s.type) ss;
        of_jobs = js;
        recent = refl;
        newest = list-IsDescending jobs none none 10 db.job_rows js e2;
        statuses_add_up =
            total-tally ◌==◌ eq_iff (map (λ j. job_value j.status) js)
            ∙ length-map (λ j. job_value j.status) js
            ∙ sym (length-map recent_job js);
      })

  loaded_lem :
      (r : Outcome Exn Summary) (s : State Summary Db)
      → ((loaded programs sources jobs r s).1 ≡ s)
        × ((v : Summary) → r ≡ ok v → (loaded programs sources jobs r s).0 ≡ ok (some v))
        × ((x : Exn) → r ≡ err x → (loaded programs sources jobs r s).0 ≡ err x)
  unfolding loaded
  loaded_lem (ok v) s = (refl, λ w e. ground arith, λ x e. cc)
  loaded_lem (err x) s = (refl, λ w e. cc, λ y e. ground arith)

  -- Where no summary is cached, one is computed from the database as it is then. If that works it is
  -- returned, and every request within the next 30 s gets the same again, whatever has been written
  -- to the database in the meantime. If it raises, as with a source that cannot be read, the
  -- exception is passed on and the cache is left as it was.
  pub dashboard_summary-IsSnapshot :
      (t : Clock) (now : ℕ) (lock : State Summary Db → State Summary Db) (c : Cache Summary)
      (db : Db)
      → (get t.first cache_key c).0 ≡ none
      → let (c1, db1) = lock ((get t.first cache_key c).1, db) in
        (get t.second cache_key c1).0 ≡ none
        → let (r, (c', db')) = dashboard_summary programs sources jobs t now lock (c, db) in
          (db' ≡ db1)
          × ((v : Summary)
              → compute programs sources jobs now db1 ≡ ok v
              → (r ≡ ok (some v))
                × IsSnapshot now db1 v
                × ((u : Clock) (later : ℕ) (lock' : State Summary Db → State Summary Db) (db2 : Db)
                    → u.first < t.stored + summary_ttl
                    → dashboard_summary programs sources jobs u later lock' (c', db2)
                      ≡ (ok (some v), (c', db2))))
          × ((e : Exn)
              → compute programs sources jobs now db1 ≡ err e
              → (r ≡ err e) × (c' ≡ (get t.second cache_key c1).1))
  unfolding dashboard_summary summary_factory
  dashboard_summary-IsSnapshot t now lock c db h k =
      let (c1, db1) = lock ((get t.first cache_key c).1, db) in
      let seen = λ (later : ℕ).
        get_or_set-miss t cache_key summary_ttl later lock
          (summary_factory programs sources jobs now) c db h k in
      let done =
        loaded_lem (compute programs sources jobs now db1) ((get t.second cache_key c1).1, db1) in
      (
        (seen 0).1 ∙ ap (λ q. q.1) done.0,
        λ v e. (
          (seen 0).0 ∙ done.1 v e,
          compute-IsSnapshot now db1 v e,
          λ u later lock' db2 near.
              get_or_set-hit u cache_key summary_ttl lock'
                (summary_factory programs sources jobs later) _ db2 v
                ((seen u.first).2 (some v) (done.1 v e) near),
        ),
        λ x e. ((seen 0).0 ∙ done.2 x e, (seen 0).3 x (done.2 x e) ∙ ap (λ q. q.0) done.0),
      )
