-- ===== src/Tests/DashboardRuns.antt =====
-- Runs of the dashboard, the listings, the export and the seeding.
use mini_agent_go.Prelude.{
  ℕ, ◌+◌, ◌*◌, ◌<◌, ◌≡◌, refl, Option, none, some, [], ◌∷◌, map, arith, codes, ◌==◌, Outcome, ok,
  err,
}
use mini_agent_go.Prelude.Groups.{largest_first, tally}
use mini_agent_go.Prelude.Dict.{lookup}
use mini_agent_go.Prelude.Groups.Top.{IsTop}
use mini_agent_go.Prelude.Iso.{isoformat}
use mini_agent_go.Core.Exceptions.{Exn}
use mini_agent_go.Core.Cache.{State, Clock, get}
use mini_agent_go.Infra.Table.Log.{Log, log_of, empty_log}
use mini_agent_go.Infra.Programs.{ProgramRow, to_domain, from_domain, list_by_range}
use mini_agent_go.Api.Dashboard.{
  same_top, top_key, top_channels, minute, Database, Summary, dashboard_summary, compute,
  summary_ttl,
}
use mini_agent_go.Api.Dashboard.Best.{top_channels-IsTop}
use mini_agent_go.Api.Dashboard.Snapshot.{IsSnapshot, dashboard_summary-IsSnapshot}
use mini_agent_go.Api.Export.{export_programs_csv}
use mini_agent_go.Api.Export.Reader.{read_rows}
use mini_agent_go.Api.Export.Reader.RoundTrip.{columns_of, read_rows-export_programs_csv}
use mini_agent_go.Api.Seed.{Draw, Tables, reset_and_seed, seed_if_empty}
use mini_agent_go.Api.Seed.Filled.{IsFair, IsSeeded, all_stats, reset_and_seed-IsSeeded}
use mini_agent_go.Tests.Samples.{news, film, sample_repr, program_table, source_table, job_table}

-- three programs on one channel and one on another, with a quote and a comma in its title
abbrev guide : Log ProgramRow
guide = log_of (
    from_domain news
    ∷ from_domain film
    ∷ record (from_domain film) {
      title = codes "\"Late\", live";
      channel_id = codes "c2";
      channel_name = codes "Two";
      identity_key = codes "k3";
    }
    ∷ [])

two_channels :
    top_channels program_table source_table job_table 5 guide
    ≡ record { key = record { channel_id = codes "c1"; channel_name = codes "One" }; size = 2 }
      ∷ record { key = record { channel_id = codes "c2"; channel_name = codes "Two" }; size = 1 }
      ∷ []
unfolding top_channels largest_first tally same_top ◌==◌ from_domain
two_channels = refl

top_channels-IsTop_example :
    IsTop same_top 1
      (map top_key guide.held)
      (top_channels program_table source_table job_table 1 guide)
top_channels-IsTop_example = top_channels-IsTop program_table source_table job_table 1 guide

quoted_row :
    export_programs_csv sample_repr program_table 0 9000 (some (codes "c2")) guide
    ≡ codes
        "title,channel,start,end,description\r\n\"\"\"Late\"\", live\",Two,1970-01-01T00:00:00.001000,1970-01-01T00:00:00.002000,\r\n"
unfolding export_programs_csv list_by_range from_domain ◌==◌ to_domain isoformat
quoted_row = refl

read_rows-export_programs_csv_example :
    read_rows (export_programs_csv sample_repr program_table 0 9000 none guide)
    ≡ (codes "title" ∷ codes "channel" ∷ codes "start" ∷ codes "end" ∷ codes "description" ∷ [])
      ∷ map columns_of (list_by_range sample_repr program_table 0 9000 none guide)
read_rows-export_programs_csv_example =
    read_rows-export_programs_csv sample_repr program_table 0 9000 none guide

abbrev Db : Type 0
Db = Database program_table source_table job_table

abbrev data_now : Db
data_now = record { program_rows = guide; source_rows = empty_log; job_rows = empty_log }

abbrev at_five : Clock
at_five = record { first = 5; second = 5; stored = 6 }

abbrev first_summary : Outcome Exn (Option Summary) × State Summary Db
first_summary =
    dashboard_summary program_table source_table job_table at_five (5000 * minute) (λ s. s)
      ([], data_now)

dashboard_summary-IsSnapshot_example :
    (first_summary.1.1 ≡ data_now)
    × ((v : Summary)
        → compute program_table source_table job_table (5000 * minute) data_now ≡ ok v
        → (first_summary.0 ≡ ok (some v))
          × IsSnapshot program_table source_table job_table (5000 * minute) data_now v
          × ((u : Clock) (later : ℕ) (lock : State Summary Db → State Summary Db) (db : Db)
              → u.first < 6 + summary_ttl
              → dashboard_summary program_table source_table job_table u later lock
                  (first_summary.1.0, db)
                ≡ (ok (some v), (first_summary.1.0, db))))
    × ((e : Exn)
        → compute program_table source_table job_table (5000 * minute) data_now ≡ err e
        → (first_summary.0 ≡ err e) × (first_summary.1.0 ≡ []))
unfolding get lookup
dashboard_summary-IsSnapshot_example =
    dashboard_summary-IsSnapshot program_table source_table job_table at_five (5000 * minute)
      (λ s. s) [] data_now refl refl

abbrev draw : Draw
draw = record {
  program_ids = λ a i. a ∷ i ∷ [];
  job_ids = λ i. i ∷ [];
  trace_ids = λ i. codes "t";
  sources_at = 20_000_000 * minute;
  programs_at = 20_000_000 * minute;
  jobs_at = 20_000_000 * minute;
}

draw-IsFair : IsFair draw
draw-IsFair = record {
  programs_differ = λ a i b j e. (cc, cc);
  jobs_differ = λ i j e. cc;
  early = omega arith;
}

abbrev old_tables : Tables program_table source_table job_table
old_tables = record { program_rows = guide; source_rows = empty_log; job_rows = empty_log }

reset_and_seed-IsSeeded_example :
    (db : Tables program_table source_table job_table) × (reset_and_seed program_table source_table
        job_table draw old_tables
      ≡ (ok (some all_stats), db))
    × IsSeeded program_table source_table job_table draw db
    × ((again : Draw) → seed_if_empty program_table source_table job_table again db ≡ (ok none, db))
reset_and_seed-IsSeeded_example =
    reset_and_seed-IsSeeded program_table source_table job_table draw old_tables draw-IsFair
