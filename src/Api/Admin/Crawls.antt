-- ===== src/Api/Admin/Crawls.antt =====
-- What the crawls of the administrator report and leave.
use mini_agent_go.Prelude.{
  ℕ, ◌≡◌, refl, ap, ◌∙◌, true, Option, none, some, List, [], ◌∷◌, map, length, Text, codes, Outcome,
  ok, err,
}
use mini_agent_go.Prelude.Dict.{Dict}
use mini_agent_go.Core.Exceptions.{Exn}
use mini_agent_go.Domain.Models.{Json, TvProgram, TvListSource, CrawlJob}
use mini_agent_go.Infra.Http.{FetchResult}
use mini_agent_go.Infra.Table.{Table}
use mini_agent_go.Infra.Programs.{ProgramRow, ProgramColumn, program_cell}
use mini_agent_go.Infra.Sources.{SourceRow, SourceColumn, source_cell, get, list}
use mini_agent_go.Infra.Jobs.{JobRow, JobColumn, job_cell}
use mini_agent_go.Services.Aggregation.{Crawl, Factory}
use mini_agent_go.Services.Aggregation.Saves.{IsIsolated}
use mini_agent_go.Services.Aggregation.Records.{run_once-rolled_back}
use mini_agent_go.Api.Admin.{
  session_closed, CrawlLine, agg_run_once, crawl_lines, trigger_crawl, trigger_crawl_all,
  crawl_found, listed, answered, run_once,
}

module _ {W : Type 0} (fetch : Text → Option (Dict Text) → W → Outcome Exn FetchResult × W)
    (parse : Text → Text → W → Outcome Exn (List TvProgram) × W) (new_id : W → Text) (now : W → ℕ)
    (repr : Json → Text) (programs : Table ProgramRow ProgramColumn program_cell)
    (jobs : Table JobRow JobColumn job_cell)
    (factory : Factory (Crawl fetch parse new_id now repr programs jobs))
    (sources : Table SourceRow SourceColumn source_cell) where
  -- the database has the programs and the jobs that it had
  abbrev pub IsSame :
      Crawl fetch parse new_id now repr programs jobs
      → Crawl fetch parse new_id now repr programs jobs
      → Type 0
  IsSame t t' = (t'.program_rows ≡ t.program_rows) × (t'.job_rows ≡ t.job_rows)

  -- between two requests: nothing is pending, and the next session takes statements
  abbrev pub IsCommitted : Crawl fetch parse new_id now repr programs jobs → Type 0
  IsCommitted t =
      (programs.rolled_back t.program_rows ≡ t.program_rows)
      × (jobs.rolled_back t.job_rows ≡ t.job_rows)
      × (t.active ≡ true)

  agg_run_once-IsSame :
      (s : TvListSource) (t : Crawl fetch parse new_id now repr programs jobs)
      → IsIsolated fetch parse new_id now repr programs jobs factory
      → IsCommitted t
      → let t' = (agg_run_once fetch parse new_id now repr programs jobs factory s t).1 in
        IsSame t t' × IsCommitted t'
  unfolding agg_run_once session_closed
  agg_run_once-IsSame s t i (cp, cj, a) =
      let (r, t') = run_once fetch parse new_id now repr programs jobs (some factory) s t in
      let (p, j) =
        run_once-rolled_back fetch parse new_id now repr programs jobs (some factory) s t
          (λ f e. isolated f cc) a in
      (
        (p ∙ cp, j ∙ cj),
        (programs.rolled_back_idem t'.program_rows, jobs.rolled_back_idem t'.job_rows, refl),
      )
    where
      isolated :
          (f : Factory (Crawl fetch parse new_id now repr programs jobs))
          → factory ≡ f
          → IsIsolated fetch parse new_id now repr programs jobs f
      isolated f e = rw⁻¹ e i

  answered-id :
      (s : TvListSource) (r : Outcome Exn CrawlJob)
      → (answered fetch parse new_id now repr programs jobs factory s r).source_id ≡ s.id
  unfolding answered
  answered-id s (ok job) = refl
  answered-id s (err e) = refl

  crawl_lines-IsSame :
      IsIsolated fetch parse new_id now repr programs jobs factory
      → (ss : List TvListSource) (t : Crawl fetch parse new_id now repr programs jobs)
      → IsCommitted t
      → let (ls, t') = crawl_lines fetch parse new_id now repr programs jobs factory ss t in
        IsSame t t' × (map (λ l. l.source_id) ls ≡ map (λ s. s.id) ss)
  unfolding crawl_lines
  crawl_lines-IsSame i [] t c = ((refl, refl), refl)
  crawl_lines-IsSame i (s ∷ ss) t c =
      let (r, t') = agg_run_once fetch parse new_id now repr programs jobs factory s t in
      let ((p, j), c') = agg_run_once-IsSame s t i c in
      let ((p', j'), ids) = crawl_lines-IsSame i ss t' c' in
      ((p' ∙ p, j' ∙ j), rw (answered-id s r) (ap (λ (l : List Text). s.id ∷ l) ids))

  crawl_found-IsSame :
      IsIsolated fetch parse new_id now repr programs jobs factory
      → (t : Crawl fetch parse new_id now repr programs jobs)
        (o : Outcome Exn (Option TvListSource))
      → IsCommitted t
      → IsSame t (crawl_found fetch parse new_id now repr programs jobs factory t o).1
  unfolding crawl_found
  crawl_found-IsSame i t (ok none) c = (refl, refl)
  crawl_found-IsSame i t (ok (some s)) c = (agg_run_once-IsSame s t i c).0
  crawl_found-IsSame i t (err e) c = (refl, refl)

  listed-IsSame :
      IsIsolated fetch parse new_id now repr programs jobs factory
      → (t : Crawl fetch parse new_id now repr programs jobs) (o : Outcome Exn (List TvListSource))
      → IsCommitted t
      → let (a, t') = listed fetch parse new_id now repr programs jobs factory t o in
        IsSame t t'
        × ((ss : List TvListSource)
            → o ≡ ok ss
            → (ls : List CrawlLine) × (a ≡ ok (length ss, ls))
              × (map (λ l. l.source_id) ls ≡ map (λ s. s.id) ss))
  unfolding listed
  listed-IsSame i t (err e) c = ((refl, refl), λ ss h. cc)
  listed-IsSame i t (ok rs) c =
      let ls = (crawl_lines fetch parse new_id now repr programs jobs factory rs t).0 in
      let (same, ids) = crawl_lines-IsSame i rs t c in
      (
        same,
        λ ss h.
            let e : rs ≡ ss = cc in
            (ls, ap (λ (q : List TvListSource). ok (length q, ls)) e, ids ∙ ap (map (λ s. s.id)) e),
      )

  -- A crawl of one source or of all, from a state in which nothing is pending, whatever it reports,
  -- leaves the programs and the jobs of the database as they were, even where it reports a job: what
  -- it writes is never committed, as long as the session that `run_once` opens does not touch that of
  -- the repositories. The crawl of all reports one line for each active source, in their order.
  pub trigger_crawl-IsSame :
      (source_id : Text) (st : sources.Store) (t : Crawl fetch parse new_id now repr programs jobs)
      → IsIsolated fetch parse new_id now repr programs jobs factory
      → IsCommitted t
      → let (r, t') =
          trigger_crawl fetch parse new_id now repr programs jobs factory sources source_id st t in
        let (a, t'') =
          trigger_crawl_all fetch parse new_id now repr programs jobs factory sources st t in
        IsSame t t'
        × IsSame t t''
        × ((ss : List TvListSource)
            → list sources (some (codes "active")) st ≡ ok ss
            → (ls : List CrawlLine) × (a ≡ ok (length ss, ls))
              × (map (λ l. l.source_id) ls ≡ map (λ s. s.id) ss))
  unfolding trigger_crawl trigger_crawl_all
  trigger_crawl-IsSame source_id st t i c =
      let (same, lines) = listed-IsSame i t (list sources (some (codes "active")) st) c in
      (crawl_found-IsSame i t (get sources source_id st) c, same, lines)
