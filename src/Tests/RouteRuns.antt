-- ===== src/Tests/RouteRuns.antt =====
-- Runs of the routes for sources and for the administrator.
use mini_agent_go.Prelude.{
  ℕ, ◌+◌, ◌≡◌, refl, Option, none, some, List, [], ◌∷◌, map, arith, length, Text, codes, empty_text,
  ◌==◌, Outcome, ok, err, true,
}
use mini_agent_go.Prelude.Dict.{Dict}
use mini_agent_go.Core.Exceptions.{Exn, raise, http, validation}
use mini_agent_go.Domain.Models.{
  TvProgram, TvListSource, to_type, type_value, to_status, status_value,
}
use mini_agent_go.Infra.Table.Log.{Log, empty_log, find_in, log_of}
use mini_agent_go.Infra.Http.{FetchResult}
use mini_agent_go.Infra.Sources.{SourceRow, new_row, get, list, make_source, to_domain}
use mini_agent_go.Api.Sources.Effects.{IsChanged}
use mini_agent_go.Infra.Sources.Laws.{written}
use mini_agent_go.Prelude.{◌>>=◌}
use mini_agent_go.Services.Aggregation.{Crawl, Factory}
use mini_agent_go.Api.Security.{Claims}
use mini_agent_go.Api.Sources.{SourceUpdate, changed, update_source, get_source}
use mini_agent_go.Api.Sources.Effects.{get-update_source, update_source-unreadable}
use mini_agent_go.Api.Admin.{CrawlOut, CrawlLine, trigger_crawl, trigger_crawl_all}
use mini_agent_go.Api.Admin.Crawls.{IsSame, trigger_crawl-IsSame}
use mini_agent_go.Tests.Samples.{
  news, sample_source, sample_repr, program_table, source_table, job_table,
}

abbrev one_source : Log SourceRow
one_source = log_of (new_row sample_source ∷ [])

abbrev claims : Claims
claims = record { sub = some (codes "u1"); role = some (codes "admin"); exp = 99 }

abbrev no_change : SourceUpdate
no_change = record {
  name = none;
  type = none;
  url = none;
  config = none;
  headers = none;
  cron = none;
  priority = none;
  parser = none;
}

abbrev renamed : Outcome Exn TvListSource × Log SourceRow
renamed =
    update_source source_table (ok claims) 9 (codes "s1")
      (record no_change { name = some (codes "New") }) one_source

get-update_source_example :
    ((s' : TvListSource) × IsChanged
        (record no_change { name = some (codes "New") })
        9
        sample_source
        s'
      × (renamed.0 ≡ ok s')
      × (get source_table (codes "s1") renamed.1 ≡ (do t ← make_source (written s'); ok (some t))))
    × ((e : Exn)
        → update_source source_table
            (err e)
            9
            (codes "s1")
            (record no_change { name = some (codes "New") })
            one_source
          ≡ (err e, one_source))
    × ((j : Text)
        → get source_table j one_source ≡ ok none
        → update_source source_table
            (ok claims)
            9
            j
            (record no_change { name = some (codes "New") })
            one_source
          ≡ (raise (http 404) (codes "source not found"), one_source))
unfolding find_in new_row ◌==◌ make_source get to_domain to_type type_value to_status status_value
get-update_source_example =
    get-update_source source_table claims 9 (codes "s1") (codes "s1")
      (record no_change { name = some (codes "New") }) sample_source one_source refl

abbrev urgent : Outcome Exn TvListSource × Log SourceRow
urgent =
    update_source source_table (ok claims) 9 (codes "s1") (record no_change { priority = some 11 })
      one_source

update_source-unreadable_example :
    (urgent.0 ≡ ok (record sample_source { priority = 11; updated_at = 9 }))
    × (get_source source_table (codes "s1") urgent.1 ≡ raise validation empty_text)
unfolding changed find_in new_row ◌==◌ make_source get to_domain to_type type_value to_status
    status_value
update_source-unreadable_example =
    update_source-unreadable source_table claims 9 11 (codes "s1")
      (record no_change { priority = some 11 }) sample_source one_source refl refl (omega arith)

abbrev page : Text → Option (Dict Text) → ℕ → Outcome Exn FetchResult × ℕ
page u h w = (
  ok (record { url = u; status_code = 200; body = codes "{}"; headers = []; elapsed_ms = 3 }),
  w + 1,
)

abbrev one_program : Text → Text → ℕ → Outcome Exn (List TvProgram) × ℕ
one_program body source_id w = (ok (news ∷ []), w)

abbrev job_id : ℕ → Text
job_id w = codes "j"

abbrev clock : ℕ → ℕ
clock w = w

abbrev session : Factory (Crawl page one_program job_id clock sample_repr program_table job_table)
session = record { enter = λ t. (ok tt, t); leave = λ b t. (ok tt, t) }

abbrev empty : Crawl page one_program job_id clock sample_repr program_table job_table
empty = record { program_rows = empty_log; job_rows = empty_log; world = 0; active = true }

abbrev one_crawl :
    Outcome Exn CrawlOut × Crawl page one_program job_id clock sample_repr program_table job_table
one_crawl =
    trigger_crawl page one_program job_id clock sample_repr program_table job_table session
      source_table (codes "s1") one_source empty

abbrev all_crawls :
    Outcome Exn (ℕ × List CrawlLine)
    × Crawl page one_program job_id clock sample_repr program_table job_table
all_crawls =
    trigger_crawl_all page one_program job_id clock sample_repr program_table job_table session
      source_table one_source empty

trigger_crawl-IsSame_example :
    IsSame page one_program job_id clock sample_repr program_table job_table session source_table
      empty one_crawl.1
    × IsSame page one_program job_id clock sample_repr program_table job_table session source_table
        empty all_crawls.1
    × ((ss : List TvListSource)
        → list source_table (some (codes "active")) one_source ≡ ok ss
        → (ls : List CrawlLine) × (all_crawls.0 ≡ ok (length ss, ls))
          × (map (λ l. l.source_id) ls ≡ map (λ s. s.id) ss))
trigger_crawl-IsSame_example =
    trigger_crawl-IsSame page one_program job_id clock sample_repr program_table job_table session
      source_table (codes "s1") one_source empty
      (record { entered = λ t. (refl, refl, refl); left = λ b t. (refl, refl, refl) })
      (refl, refl, refl)
