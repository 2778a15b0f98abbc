-- ===== src/Api/Seed.antt =====
-- interfaces/api/seed.py: the sample data for development, over the committed tables. Each builder
-- reads the clock, past the first two hours of 1970. Random ids are arguments: `program_ids idx i` are
-- the twelve digits that are drawn for the slot `i` of the channel `idx`, and `job_ids` and `trace_ids`
-- those for the jobs.
pub mod Slots
pub mod Apart
pub mod Parts
pub mod Filled
use mini_agent_go.Prelude.{
  ℕ, zero, suc, ◌+◌, ◌-◌, ◌*◌, ◌/◌, ◌%◌, Bool, true, false, not, ◌&&◌, Option, none, some, List, [],
  ◌∷◌, ◌++◌, map, ltb, eqb, if◌then◌else◌, length, Text, codes, some_text, Outcome, ok, err, ◌>>=◌,
}
use mini_agent_go.Prelude.Iso.{isoformat_utc}
use mini_agent_go.Core.Exceptions.{Exn}
use mini_agent_go.Domain.Models.{
  TvListSource, SourceType, http_json, rss, m3u, active, JobStatus, success, failed, running,
  job_value,
}
use mini_agent_go.Api.Samples.{
  Category, drama, news, variety, movie, sports, kids, doc, label, titles, build_sample_sources,
  ChannelDef, channel_defs, JobSpec, job_specs,
}
use mini_agent_go.Infra.Table.{Table}
use mini_agent_go.Infra.Table.Bulk.{insert_all}
use mini_agent_go.Infra.Programs.{ProgramRow, ProgramColumn, program_cell, dump_tag}
use mini_agent_go.Infra.Sources.{SourceRow, SourceColumn, source_cell, new_row}
use mini_agent_go.Infra.Jobs.{JobRow, JobColumn, job_cell}

-- `xs[i % len(xs)]`, `none` on the empty list
unfoldable pub nth_of {ℓ} : {A : Type ℓ} → List A → ℕ → Option A
nth_of [] i = none
nth_of (x ∷ xs) zero = some x
nth_of (x ∷ xs) (suc i) = nth_of xs i

unfoldable pub cycled : List Text → ℕ → Text
unfolding nth_of
cycled xs i = some_text (nth_of xs (i % length xs))

unfoldable pub starts_with : Text → Text → Bool
starts_with [] s = true
starts_with (c ∷ p) [] = false
starts_with (c ∷ p) (d ∷ s) = eqb c d && starts_with p s

abbrev pub minute : ℕ
minute = 60_000_000

unfoldable pub slot_minutes : Category → ℕ
slot_minutes news = 30
slot_minutes kids = 30
slot_minutes sports = 30
slot_minutes _ = 60

unfoldable pub slot_count : Category → ℕ
unfolding slot_minutes
slot_count c = 48 * 60 / slot_minutes c

unfoldable pub country_of : Text → Text
unfolding starts_with
country_of id =
    if starts_with (codes "ch_") id
      && (not (starts_with (codes "ch_bbc") id) && not (starts_with (codes "ch_sky") id))
    then codes "CN"
    else codes "GB"

unfoldable pub language_of : ℕ → Text
language_of idx = if ltb idx 8 then codes "zh-CN" else codes "en-GB"

unfoldable pub slot_start : ℕ → ChannelDef → ℕ → ℕ
unfolding slot_minutes
slot_start now ch i = now - 120 * minute + slot_minutes ch.category * minute * i

module _ (program_ids : ℕ → ℕ → Text) (now : ℕ) (source_ids : List Text) where
  -- the row of the slot `i` of a channel
  unfoldable pub program_row : ℕ → ChannelDef → ℕ → ProgramRow
  unfolding slot_start slot_minutes cycled titles country_of language_of label dump_tag nth_of
  program_row idx ch i =
      let start = slot_start now ch i in
      let title = cycled (titles ch.category) i in
      record {
        id = codes "prog_" ++ program_ids idx i;
        title = title;
        description = some (codes "《" ++ title ++ codes "》-" ++ ch.name ++ codes " 播出");
        channel_id = ch.id;
        channel_name = ch.name;
        channel_logo = none;
        channel_country = some (country_of ch.id);
        channel_language = some (language_of idx);
        start_at = start;
        end_at = start + slot_minutes ch.category * minute;
        timezone = codes "UTC";
        tags = dump_tag (record { label = label ch.category; category = codes "genre" }) ∷ [];
        source_ids = some_text (nth_of source_ids (idx % 3)) ∷ [];
        identity_key = ch.id ++ b'|' ∷ isoformat_utc start;
        version = 1;
        created_at = now;
        updated_at = now;
      }

  -- the inner loop, from the slot `i` on
  unfoldable pub slots : ℕ → ChannelDef → ℕ → ℕ → List ProgramRow
  unfolding program_row
  slots idx ch i zero = []
  slots idx ch i (suc left) = program_row idx ch i ∷ slots idx ch (i + 1) left

  -- the outer loop, from the channel `idx` on
  unfoldable pub channel_rows : ℕ → List ChannelDef → List ProgramRow
  unfolding slots slot_count
  channel_rows idx [] = []
  channel_rows idx (ch ∷ chs) =
      slots idx ch 0 (slot_count ch.category) ++ channel_rows (idx + 1) chs

  unfoldable pub build_sample_programs : List ProgramRow
  unfolding channel_rows channel_defs
  build_sample_programs = channel_rows 0 channel_defs

is_running : JobStatus → Bool
is_running running = true
is_running _ = false

module _ (job_ids trace_ids : ℕ → Text) (now : ℕ) (source_ids : List Text) where
  unfoldable pub job_row : ℕ → JobSpec → JobRow
  unfolding is_running nth_of
  job_row i s =
      let started = now - s.minutes_ago * minute in
      record {
        id = codes "job_" ++ job_ids i;
        source_id = some_text (nth_of source_ids s.source_idx);
        status = job_value s.status;
        started_at = started;
        finished_at = if is_running s.status then none else some (started + 8_000_000);
        items_fetched = s.fetched;
        items_saved = s.saved;
        error = s.error;
        trace_id = some (codes "tr_" ++ trace_ids i);
      }

  unfoldable pub job_rows_from : ℕ → List JobSpec → List JobRow
  unfolding job_row
  job_rows_from i [] = []
  job_rows_from i (s ∷ ss) = job_row i s ∷ job_rows_from (i + 1) ss

  unfoldable pub build_sample_jobs : List JobRow
  unfolding job_rows_from job_specs
  build_sample_jobs = job_rows_from 0 job_specs

-- what the seeding returns; `none` where it was skipped
pub record Stats : Type 0 where
  pub sources : ℕ
  pub programs : ℕ
  pub jobs : ℕ

-- the random ids and the readings of the clock of one call
pub record Draw : Type 0 where
  pub program_ids : ℕ → ℕ → Text
  pub job_ids : ℕ → Text
  pub trace_ids : ℕ → Text
  pub sources_at : ℕ
  pub programs_at : ℕ
  pub jobs_at : ℕ

module _ (programs : Table ProgramRow ProgramColumn program_cell)
    (sources : Table SourceRow SourceColumn source_cell)
    (jobs : Table JobRow JobColumn job_cell) where
  pub record Tables : Type 0 where
    pub program_rows : programs.Store
    pub source_rows : sources.Store
    pub job_rows : jobs.Store

  -- the flush of all that was added, before the commit
  unfoldable pub flushed : Draw → Tables → Outcome Exn (Stats × Tables)
  unfolding insert_all build_sample_sources build_sample_programs build_sample_jobs
  flushed d db =
      let ss = build_sample_sources d.sources_at in
      let ids = map (λ (s : TvListSource). s.id) ss in
      let ps = build_sample_programs d.program_ids d.programs_at ids in
      let js = build_sample_jobs d.job_ids d.trace_ids d.jobs_at ids in
      do
        source_rows ← insert_all sources (map new_row ss) db.source_rows
        program_rows ← insert_all programs ps db.program_rows
        job_rows ← insert_all jobs js db.job_rows
        ok (
          record { sources = length ss; programs = length ps; jobs = length js },
          record { program_rows = program_rows; source_rows = source_rows; job_rows = job_rows },
        )

  committed : Tables → Outcome Exn (Stats × Tables) → Outcome Exn (Option Stats) × Tables
  committed db (err e) = (err e, db)
  committed db (ok (stats, db')) = (ok (some stats), db')

  seed_unless : List SourceRow → Draw → Tables → Outcome Exn (Option Stats) × Tables
  unfolding committed flushed
  seed_unless (r ∷ rs) d db = (ok none, db)
  seed_unless [] d db = committed db (flushed d db)

  unfoldable pub seed_if_empty : Draw → Tables → Outcome Exn (Option Stats) × Tables
  unfolding seed_unless
  seed_if_empty d db = seed_unless (sources.rows db.source_rows) d db

  unfoldable pub reset_and_seed : Draw → Tables → Outcome Exn (Option Stats) × Tables
  unfolding seed_if_empty
  reset_and_seed d db = seed_if_empty d (record {
    program_rows = programs.clear db.program_rows;
    source_rows = sources.clear db.source_rows;
    job_rows = jobs.clear db.job_rows;
  })
