-- ===== src/Tests/StorageRuns.antt =====
-- Runs of the repositories, over tables that are logs of writes.
use mini_agent_go.Prelude.{
  ℕ, ◌≡◌, refl, ◌≢◌, true, none, some, [], ◌∷◌, List, map, length, if◌then◌else◌, Text, codes, ◌==◌,
  eq_iff, Outcome, ok, err, ◌>>=◌,
}
use mini_agent_go.Core.Exceptions.{Exn, integrity}
use mini_agent_go.Domain.Models.{TvProgram, CrawlJob, failed, job_value, to_job_status}
use mini_agent_go.Infra.Table.Log.{empty_log, find_in, Log, log_of}
use mini_agent_go.Infra.Programs.{ProgramRow, from_domain, to_domain, upsert, find_by_identity}
use mini_agent_go.Infra.Programs.Upsert.{IsUpdated, upsert-known, upsert_second_without_id}
use mini_agent_go.Infra.Sources.{SourceRow, new_row, get, add, delete, make_source}
use mini_agent_go.Infra.Sources.Laws.{written, get-add, get-delete}
use mini_agent_go.Infra.Health.{
  SourceHealthRow, get_streak, increment, reset, get_streak-increment, get_streak-reset,
}
use mini_agent_go.Infra.Jobs.{JobRow, list, new_row as job_row}
use mini_agent_go.Infra.Jobs.Listing.{AreListed, list-IsDescending}
use mini_agent_go.Tests.Samples.{
  job_table, news, news_again, film, sample_source, sample_repr, program_table, source_table,
  health_table,
}
use mini_agent_go.Infra.Programs.Catalogue.{view, IsEntered, upsert-IsEntered}

abbrev one_row : Log ProgramRow
one_row = log_of (from_domain news ∷ [])

abbrev second : Outcome Exn TvProgram × Log ProgramRow
second = upsert sample_repr program_table 9 news_again one_row

upsert-known_example :
    ((q : TvProgram) × (second.0 ≡ ok q)
      × IsUpdated (to_domain sample_repr (from_domain news)) news_again q
      × ((k : Text)
          → find_by_identity sample_repr program_table k second.1 ≡ (
              if codes "k1" == k
              then some q
              else find_by_identity sample_repr program_table k one_row)))
    × (length second.1.held ≡ 1)
unfolding find_in from_domain ◌==◌
upsert-known_example =
    upsert-known sample_repr program_table 9 news_again one_row (from_domain news) refl

abbrev first : Outcome Exn TvProgram × Log ProgramRow
first = upsert sample_repr program_table 9 news empty_log

upsert-IsEntered_example :
    IsEntered 9 news
      (view sample_repr program_table empty_log)
      (view sample_repr program_table (program_table.rolled_back empty_log))
      first.0
      (view sample_repr program_table first.1)
upsert-IsEntered_example = upsert-IsEntered sample_repr program_table 9 news empty_log

k1-not-k2 : codes "k1" ≢ codes "k2"
unfolding ◌==◌
k1-not-k2 h =
    let e : (codes "k1" == codes "k2") ≡ true = (eq_iff (codes "k1") (codes "k2")).1 h in cc

upsert_second_without_id_example :
    (e : Exn) × (e.cls ≡ integrity)
    × (upsert sample_repr program_table 9 film first.1 ≡ (err e, program_table.rolled_back first.1))
unfolding find_in
upsert_second_without_id_example =
    upsert_second_without_id sample_repr program_table 9 9 news film empty_log refl refl k1-not-k2
      refl refl refl

abbrev one_source : Log SourceRow
one_source = log_of (new_row sample_source ∷ [])

get-add_example :
    (st : Log SourceRow) × (add source_table sample_source empty_log ≡ ok st)
    × ((k : Text)
        → get source_table k st ≡ (
            if codes "s1" == k
            then (do s ← make_source (written sample_source); ok (some s))
            else get source_table k empty_log))
unfolding find_in
get-add_example = get-add source_table sample_source empty_log refl

get-delete_example :
    get source_table (codes "s1") (delete source_table (codes "s1") one_source) ≡ ok none
unfolding ◌==◌
get-delete_example = get-delete source_table one_source (codes "s1") (codes "s1")

abbrev one_failure : Log SourceHealthRow
one_failure = log_of (
    record { source_id = codes "s1"; fail_streak = 1; last_check_at = some 3; last_message = none }
    ∷ [])

abbrev failed_again : Outcome Exn ℕ × Log SourceHealthRow
failed_again = increment health_table 9 (codes "s1") none one_failure

get_streak-increment_example :
    (failed_again.0 ≡ ok 2) × (get_streak health_table (codes "s1") failed_again.1 ≡ 2)
unfolding get_streak find_in ◌==◌
get_streak-increment_example =
    get_streak-increment health_table 9 (codes "s1") (codes "s1") one_failure none

get_streak-reset_example :
    get_streak health_table (codes "s1") (reset health_table 9 (codes "s1") one_failure) ≡ 0
unfolding ◌==◌
get_streak-reset_example = get_streak-reset health_table 9 (codes "s1") (codes "s1") one_failure

abbrev job : ℕ → Text → CrawlJob
job started_at id = record {
  id = id;
  source_id = codes "s1";
  status = failed;
  started_at = started_at;
  finished_at = none;
  items_fetched = 0;
  items_saved = 0;
  error = none;
  trace_id = none;
}

abbrev two_jobs : Log JobRow
two_jobs = log_of (job_row (job 5 (codes "a")) ∷ job_row (job 8 (codes "b")) ∷ [])

abbrev listed : List CrawlJob
listed = job 8 (codes "b") ∷ job 5 (codes "a") ∷ []

list-IsDescending_example :
    AreListed none (some failed) 3 (job_table.rows two_jobs) (map job_row listed)
unfolding list ◌==◌ job_row job_value to_job_status
list-IsDescending_example = list-IsDescending job_table none (some failed) 3 two_jobs listed refl
