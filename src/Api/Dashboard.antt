-- ===== src/Api/Dashboard.antt =====
-- interfaces/api/routers/dashboard.py: the summary behind the cache of 30 s, the timeline and the top
-- channels, over the committed tables. Times are microseconds, the cache's clock is in milliseconds,
-- and `now` is past the first day of 1970. `hours` and `limit` are natural numbers; the routes
-- take any integer.
pub mod Best
pub mod Schedule
pub mod Snapshot
use mini_agent_go.Prelude.{
  ℕ, ◌+◌, ◌-◌, ◌*◌, Bool, ◌&&◌, ◌||◌, Option, none, some, List, [], ◌∷◌, map, leb, if◌then◌else◌,
  length, take, filter, Text, codes, is_empty, some_text, count, ◌==◌, Outcome, ok, err, ◌>>=◌,
}
use mini_agent_go.Prelude.Dict.{Dict, push}
use mini_agent_go.Prelude.Groups.{Group, tally, size_of, largest_first}
use mini_agent_go.Prelude.Sorted.{lt_text}
use mini_agent_go.Core.Exceptions.{Exn}
use mini_agent_go.Core.Cache.{State, Load, Clock, get_or_set}
use mini_agent_go.Domain.Models.{Json, TvListSource, CrawlJob, status_value, type_value, job_value}
use mini_agent_go.Infra.Table.{Table}
use mini_agent_go.Infra.Programs.{ProgramRow, ProgramColumn, program_cell}
use mini_agent_go.Infra.Programs
use mini_agent_go.Infra.Sources.{SourceRow, SourceColumn, source_cell}
use mini_agent_go.Infra.Sources
use mini_agent_go.Infra.Jobs.{JobRow, JobColumn, job_cell}
use mini_agent_go.Infra.Jobs

abbrev pub minute : ℕ
minute = 60_000_000

abbrev pub hour : ℕ
hour = 60 * minute

-- the pair of columns of the `GROUP BY` of the top channels
pub record TopKey : Type 0 where
  pub channel_id : Text
  pub channel_name : Text

unfoldable pub same_top : TopKey → TopKey → Bool
same_top a b = (a.channel_id == b.channel_id) && (a.channel_name == b.channel_name)

abbrev pub top_key : ProgramRow → TopKey
top_key r = record { channel_id = r.channel_id; channel_name = r.channel_name }

-- a block of the timeline
pub record Block : Type 0 where
  pub id : Text
  pub title : Text
  pub description : Option Text
  pub start : ℕ
  pub finish : ℕ
  pub channel_id : Text
  pub channel_name : Text
  pub tags : List Json

abbrev pub block : ProgramRow → Block
block r = record {
  id = r.id;
  title = r.title;
  description = r.description;
  start = r.start_at;
  finish = r.end_at;
  channel_id = r.channel_id;
  channel_name = r.channel_name;
  tags = r.tags;
}

pub record Timeline : Type 0 where
  pub from : ℕ
  pub to : ℕ
  pub now : ℕ
  pub channels : List TopKey
  pub programs_by_channel : Dict (List Block)

-- the conditions of the timeline's `select`; an empty `channel` is none
unfoldable pub on_air : ℕ → ℕ → Option Text → ProgramRow → Bool
on_air start finish channel r =
    leb r.start_at finish
    && (leb start r.end_at && (is_empty (some_text channel) || (r.channel_id == some_text channel)))

-- `order_by(channel_id, start_at)`; rows that agree in both keep the order of the table
unfoldable pub before : ProgramRow → ProgramRow → Bool
before r q =
    lt_text r.channel_id q.channel_id
    || ((r.channel_id == q.channel_id) && leb r.start_at q.start_at)

unfoldable pub put_row : ProgramRow → List ProgramRow → List ProgramRow
unfolding before
put_row r [] = r ∷ []
put_row r (q ∷ qs) = let rest = put_row r qs in if before r q then r ∷ q ∷ qs else q ∷ rest

unfoldable pub in_order : List ProgramRow → List ProgramRow
unfolding put_row
in_order [] = []
in_order (r ∷ rs) = put_row r (in_order rs)

-- the loop over the rows
unfoldable pub by_channel : Dict (List Block) → List ProgramRow → Dict (List Block)
by_channel d [] = d
by_channel d (r ∷ rs) = by_channel (push r.channel_name (block r) d) rs

pub record RecentJob : Type 0 where
  pub id : Text
  pub source_id : Text
  pub status : Text
  pub started_at : ℕ
  pub finished_at : Option ℕ
  pub items_fetched : ℕ
  pub items_saved : ℕ

abbrev pub recent_job : CrawlJob → RecentJob
recent_job j = record {
  id = j.id;
  source_id = j.source_id;
  status = job_value j.status;
  started_at = j.started_at;
  finished_at = j.finished_at;
  items_fetched = j.items_fetched;
  items_saved = j.items_saved;
}

pub record Summary : Type 0 where
  pub generated_at : ℕ
  pub programs_total : ℕ
  pub programs_last_24h : ℕ
  pub sources_total : ℕ
  pub sources_active : ℕ
  pub sources_disabled : ℕ
  pub sources_by_type : List (Group Text)
  pub jobs_recent : List RecentJob
  pub jobs_by_status : List (Group Text)

-- `_DASHBOARD_SUMMARY_TTL_SECONDS`
abbrev pub summary_ttl : ℕ
summary_ttl = 30000

abbrev pub cache_key : Text
cache_key = codes "dashboard:summary"

module _ (programs : Table ProgramRow ProgramColumn program_cell)
    (sources : Table SourceRow SourceColumn source_cell)
    (jobs : Table JobRow JobColumn job_cell) where
  unfoldable pub top_channels : ℕ → programs.Store → List (Group TopKey)
  top_channels limit st =
      take limit (largest_first (tally same_top (map top_key (programs.rows st))))

  unfoldable pub dashboard_timeline : ℕ → ℕ → Option Text → programs.Store → Timeline
  unfolding in_order on_air by_channel
  dashboard_timeline now hours channel st =
      let start = now - 30 * minute in
      let finish = now + hours * hour in
      let rows = in_order (filter (on_air start finish channel) (programs.rows st)) in
      record {
        from = start;
        to = finish;
        now = now;
        channels = map top_key (take 1 rows);
        programs_by_channel = by_channel [] rows;
      }

  pub record Database : Type 0 where
    pub program_rows : programs.Store
    pub source_rows : sources.Store
    pub job_rows : jobs.Store

  unfoldable pub summary_of : ℕ → Database → List TvListSource → List CrawlJob → Summary
  summary_of now db ss js =
      let by_status = tally ◌==◌ (map (λ s. status_value s.status) ss) in
      record {
        generated_at = now;
        programs_total = Programs.count (λ v. []) programs db.program_rows;
        programs_last_24h =
            count (λ r. leb (now - 24 * hour) r.start_at) (programs.rows db.program_rows);
        sources_total = length ss;
        sources_active = size_of ◌==◌ (codes "active") by_status;
        sources_disabled = size_of ◌==◌ (codes "disabled") by_status;
        sources_by_type = tally ◌==◌ (map (λ s. type_value s.type) ss);
        jobs_recent = map recent_job js;
        jobs_by_status = tally ◌==◌ (map (λ j. job_value j.status) js);
      }

  -- `_compute`
  unfoldable pub compute : ℕ → Database → Outcome Exn Summary
  unfolding summary_of
  compute now db = do
    ss ← Sources.list sources none db.source_rows
    js ← Jobs.list jobs none none 10 db.job_rows
    ok (summary_of now db ss js)

  -- `_compute` as the factory of the cache
  unfoldable pub loaded :
      Outcome Exn Summary
      → State Summary Database
      → Outcome Exn (Option Summary) × State Summary Database
  loaded (ok v) s = (ok (some v), s)
  loaded (err e) s = (err e, s)

  unfoldable pub summary_factory : ℕ → Load Summary Database
  unfolding loaded compute
  summary_factory now (c, db) = loaded (compute now db) (c, db)

  -- `t` is the clock of the cache, and `lock` what other requests do to it while this one waits
  unfoldable pub dashboard_summary :
      Clock
      → ℕ
      → (State Summary Database → State Summary Database)
      → State Summary Database
      → Outcome Exn (Option Summary) × State Summary Database
  unfolding summary_factory
  dashboard_summary t now lock s = get_or_set t cache_key summary_ttl lock (summary_factory now) s
