-- ===== src/Tests/ServiceRuns.antt =====
-- Runs of the crawl, the health check, the source registry and the accounts.
use mini_agent_go.Prelude.{
  ℕ, ◌+◌, ◌≡◌, refl, true, false, Option, none, some, List, [], ◌∷◌, Text, codes, ◌==◌, Outcome, ok,
}
use mini_agent_go.Prelude.Dict.{Dict}
use mini_agent_go.Core.Exceptions.{Exn, raise, source_unavailable}
use mini_agent_go.Domain.Models.{TvProgram, paused, CrawlJob}
use mini_agent_go.Infra.Table.Log.{Log, empty_log, find_in, log_of}
use mini_agent_go.Infra.Http.{FetchResult}
use mini_agent_go.Infra.Sources.{SourceRow, new_row, get, make_source, to_domain}
use mini_agent_go.Services.Aggregation.{Crawl, Factory, run_once}
use mini_agent_go.Infra.Sources
use mini_agent_go.Infra.Health.{get_streak}
use mini_agent_go.Services.Checks.Streaks.{check_one-streak}
use mini_agent_go.Services.Checks.{check, check_one, Tick, report}
use mini_agent_go.Infra.Users.{UserRow}
use mini_agent_go.Tests.Samples.{
  news, film, sample_source, sample_repr, program_table, source_table, job_table, one_user,
  health_table,
}
use mini_agent_go.Services.Aggregation.Refined.{IsCrawled, run_once-IsCrawled}
use mini_agent_go.Domain.Dedup.{merge}
use mini_agent_go.Prelude.{map}
use mini_agent_go.Services.Aggregation.{apply_norm}

-- the world counts the fetches
abbrev page : Text → Option (Dict Text) → ℕ → Outcome Exn FetchResult × ℕ
page u h w = (
  ok (record { url = u; status_code = 200; body = codes "{}"; headers = []; elapsed_ms = 3 }),
  w + 1,
)

abbrev two : Text → Text → ℕ → Outcome Exn (List TvProgram) × ℕ
two body source_id w = (ok (news ∷ film ∷ []), w)

abbrev job_id : ℕ → Text
job_id w = codes "j"

abbrev clock : ℕ → ℕ
clock w = w

abbrev one : Text → Text → ℕ → Outcome Exn (List TvProgram) × ℕ
one body source_id w = (ok (news ∷ []), w)

abbrev session : Factory (Crawl page one job_id clock sample_repr program_table job_table)
session = record { enter = λ t. (ok tt, t); leave = λ b t. (ok tt, t) }

abbrev before_one : Crawl page one job_id clock sample_repr program_table job_table
before_one = record { program_rows = empty_log; job_rows = empty_log; world = 0; active = true }

abbrev one_crawled :
    Outcome Exn CrawlJob × Crawl page one job_id clock sample_repr program_table job_table
one_crawled =
    run_once page one job_id clock sample_repr program_table job_table (some session) sample_source
      before_one

abbrev before : Crawl page two job_id clock sample_repr program_table job_table
before = record { program_rows = empty_log; job_rows = empty_log; world = 0; active = true }

-- the second of the programs is refused, because neither has an id
run_once-IsCrawled_example :
    IsCrawled page two job_id clock sample_repr program_table job_table
      (codes "j")
      1
      (merge (map apply_norm (news ∷ film ∷ [])))
      before
      (run_once page two job_id clock sample_repr program_table job_table none sample_source before)
unfolding find_in
run_once-IsCrawled_example =
    run_once-IsCrawled page two job_id clock sample_repr program_table job_table sample_source
      before
      (record {
        url = codes "http://a/";
        status_code = 200;
        body = codes "{}";
        headers = [];
        elapsed_ms = 3;
      })
      (news ∷ film ∷ []) 1 1 refl refl refl refl refl

abbrev one_source : Log SourceRow
one_source = log_of (new_row sample_source ∷ [])

-- the user as its own transaction has it
abbrev added_user : Log UserRow
added_user = record one_user { old_writes = []; old_held = [] }

abbrev dead : Text → Option (Dict Text) → ℕ → Outcome Exn FetchResult × ℕ
dead u h w = (raise source_unavailable (codes "refused"), w + 1)

-- a source that was paused at a streak of 3, and enabled again
abbrev enabled_again : Tick dead clock source_table health_table
enabled_again = record {
  source_rows = one_source;
  health_rows = log_of (
      record {
        source_id = codes "s1";
        fail_streak = 3;
        last_check_at = some 3;
        last_message = none;
      }
      ∷ []);
  world = 0;
}

abbrev after_check : Outcome Exn (Unit {0}) × Tick dead clock source_table health_table
after_check = check_one dead clock source_table health_table 3 sample_source enabled_again

check_one-streak_example :
    (after_check.0 ≡ ok tt)
    × (false ≡ true
        → (get_streak health_table (codes "s1") after_check.1.health_rows ≡ 0)
          × (after_check.1.source_rows ≡ one_source))
    × (false ≡ false
        → (get_streak health_table (codes "s1") after_check.1.health_rows ≡ 4)
          × (after_check.1.source_rows
              ≡ Sources.update source_table 1
                  (record sample_source { status = paused })
                  one_source))
unfolding check report get_streak find_in ◌==◌
check_one-streak_example =
    check_one-streak dead clock source_table health_table 3 sample_source enabled_again (codes "s1")
