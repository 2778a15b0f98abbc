-- ===== src/Api/Seed/Filled.antt =====
-- What the tables hold after a reset and a seeding.
use mini_agent_go.Prelude.{
  ℕ, ◌+◌, ◌-◌, ◌*◌, ◌<◌, ◌≡◌, refl, ap, ◌∙◌, Bool, true, ◌&&◌, none, some, List, [], ◌∷◌, map,
  arith, ltb, leb, if◌then◌else◌, length, All, length-map, Text, count, All-implied, ok,
}
use mini_agent_go.Prelude.Iso.Reading.{end_of_time}
use mini_agent_go.Domain.Models.{TvListSource}
use mini_agent_go.Infra.Table.{Table}
use mini_agent_go.Infra.Table.Bulk.{
  AreApart, insert_all, IsFree, AreInserted, insert_all-AreInserted,
}
use mini_agent_go.Infra.Programs.{ProgramRow, ProgramColumn, program_cell}
use mini_agent_go.Infra.Sources.{SourceRow, SourceColumn, source_cell, new_row}
use mini_agent_go.Infra.Jobs.{JobRow, JobColumn, job_cell}
use mini_agent_go.Api.Samples.{channel_defs, build_sample_sources, job_specs}
use mini_agent_go.Api.Seed.{
  minute, build_sample_programs, build_sample_jobs, Stats, Draw, Tables, flushed, committed,
  seed_unless, seed_if_empty, reset_and_seed,
}
use mini_agent_go.Api.Seed.Slots.{is_on, build_sample_programs-cover}
use mini_agent_go.Api.Seed.Apart.{build_sample_programs-AreApart}
use mini_agent_go.Api.Seed.Parts.{length-build_sample_programs, sources-AreApart, jobs-AreApart}

abbrev pub all_stats : Stats
all_stats = record { sources = 3; programs = 768; jobs = 6 }

-- The draw has no id twice, and its time is early enough for a `datetime` of all slots.
pub record IsFair (d : Draw) : Type 0 where
  pub programs_differ : (a i b j : ℕ) → d.program_ids a i ≡ d.program_ids b j → (a ≡ b) × (i ≡ j)
  pub jobs_differ : (i j : ℕ) → d.job_ids i ≡ d.job_ids j → i ≡ j
  pub early : d.programs_at + 2880 * minute < end_of_time

module _ {Row Column : Type 0} {cell : Column → Row → Text} (table : Table Row Column cell) where
  All-IsFree : (st : table.Store) (rs : List Row) → All (IsFree table (table.clear st)) rs
  All-IsFree st [] = tt
  All-IsFree st (r ∷ rs) = (λ c. table.find-clear c (cell c r) st, All-IsFree st rs)

  filled :
      (st : table.Store) (rs : List Row)
      → AreApart cell rs
      → (s' : table.Store) × AreInserted table rs (table.clear st) s'
  filled st rs a = insert_all-AreInserted table rs (table.clear st) (All-IsFree st rs) a

  size-clear : (st : table.Store) → table.size (table.clear st) ≡ 0
  size-clear st = table.size-rows (table.clear st) ∙ ap length (table.rows-clear st)

module _ (programs : Table ProgramRow ProgramColumn program_cell)
    (sources : Table SourceRow SourceColumn source_cell)
    (jobs : Table JobRow JobColumn job_cell) where
  -- `db` holds the sample data of a draw, and nothing else.
  pub record IsSeeded (d : Draw) (db : Tables programs sources jobs) : Type 0 where
    pub sources_stored : sources.size db.source_rows ≡ 3
    pub programs_stored : programs.size db.program_rows ≡ 768
    pub jobs_stored : jobs.size db.job_rows ≡ 6
    pub covered :
        (t : ℕ)
        → All
            (λ ch. count (is_on ch.id t) (programs.rows db.program_rows) ≡ (
              if leb (d.programs_at - 120 * minute) t
                && ltb t (d.programs_at - 120 * minute + 2880 * minute)
              then 1
              else 0))
            channel_defs

  abbrev ids_of : Draw → List Text
  ids_of d = map (λ (s : TvListSource). s.id) (build_sample_sources d.sources_at)

  abbrev sources_of : Draw → List SourceRow
  sources_of d = map new_row (build_sample_sources d.sources_at)

  abbrev programs_of : Draw → List ProgramRow
  programs_of d = build_sample_programs d.program_ids d.programs_at (ids_of d)

  abbrev jobs_of : Draw → List JobRow
  jobs_of d = build_sample_jobs d.job_ids d.trace_ids d.jobs_at (ids_of d)

  length-sources_of : (d : Draw) → length (build_sample_sources d.sources_at) ≡ 3
  unfolding build_sample_sources
  length-sources_of d = refl

  length-jobs_of : (d : Draw) → length (jobs_of d) ≡ 6
  unfolding build_sample_jobs
  length-jobs_of d = refl

  count-sources_of : (d : Draw) → count (λ r. true) (sources_of d) ≡ 3
  unfolding build_sample_sources
  count-sources_of d = refl

  covers :
      (d : Draw) (rows rest : List ProgramRow)
      → ((p : ProgramRow → Bool) → count p rows ≡ count p (programs_of d) + count p rest)
      → rest ≡ []
      → (t : ℕ)
      → All
          (λ ch. count (is_on ch.id t) rows ≡ (
            if leb (d.programs_at - 120 * minute) t
              && ltb t (d.programs_at - 120 * minute + 2880 * minute)
            then 1
            else 0))
          channel_defs
  covers d rows rest counted e t =
      All-implied (λ ch k. omega (arith, counted (is_on ch.id t), k, ap (count (is_on ch.id t)) e))
        channel_defs (build_sample_programs-cover d.program_ids d.programs_at (ids_of d) t)

  flushed_lem :
      (d : Draw) (db : Tables programs sources jobs) (source_rows : sources.Store)
      (program_rows : programs.Store) (job_rows : jobs.Store)
      → insert_all sources (sources_of d) db.source_rows ≡ ok source_rows
      → insert_all programs (programs_of d) db.program_rows ≡ ok program_rows
      → insert_all jobs (jobs_of d) db.job_rows ≡ ok job_rows
      → flushed programs sources jobs d db
        ≡ ok (
          all_stats,
          record { program_rows = program_rows; source_rows = source_rows; job_rows = job_rows },
        )
  unfolding flushed
  flushed_lem d db source_rows program_rows job_rows e f g =
      rw
        (
          e,
          f,
          g,
          length-sources_of d,
          length-build_sample_programs d.program_ids d.programs_at (ids_of d),
          length-jobs_of d,
        )
        refl

  seed_unless-empty :
      (rows : List SourceRow) (d : Draw) (db : Tables programs sources jobs)
      (r : Stats × Tables programs sources jobs)
      → rows ≡ []
      → flushed programs sources jobs d db ≡ ok r
      → seed_unless programs sources jobs rows d db ≡ (ok (some r.0), r.1)
  unfolding seed_unless committed
  seed_unless-empty rows d db r h e = rw (h, seed_unless, e) refl

  skipped :
      (rows : List SourceRow) (d : Draw) (db : Tables programs sources jobs)
      → 0 < count (λ r. true) rows
      → seed_unless programs sources jobs rows d db ≡ (ok none, db)
  unfolding seed_unless
  skipped [] d db h = absurd (omega arith)
  skipped (r ∷ rs) d db h = refl

  -- A reset always works, if no id is drawn twice: whatever was in the tables, afterwards they hold
  -- 3 sources, 768 programs and 6 jobs and no other row, each of the twelve channels has
  -- exactly one program on at each time of the two days and none outside, and to seed again does
  -- nothing.
  pub reset_and_seed-IsSeeded :
      (d : Draw) (db : Tables programs sources jobs)
      → IsFair d
      → (db' : Tables programs sources jobs) × (reset_and_seed programs sources jobs d db
          ≡ (ok (some all_stats), db'))
        × IsSeeded d db'
        × ((again : Draw) → seed_if_empty programs sources jobs again db' ≡ (ok none, db'))
  unfolding reset_and_seed seed_if_empty
  reset_and_seed-IsSeeded d db fair =
      let (source_rows, s) =
        filled sources db.source_rows (sources_of d) (sources-AreApart d.sources_at) in
      let (program_rows, p) = filled programs db.program_rows (programs_of d) (
        build_sample_programs-AreApart d.program_ids fair.programs_differ d.programs_at (ids_of d)
          fair.early) in
      let (job_rows, j) =
        filled jobs db.job_rows (jobs_of d)
          (unfold build_sample_jobs in jobs-AreApart d fair.jobs_differ (ids_of d) 0 job_specs) in
      let cleared : Tables programs sources jobs = record {
        program_rows = programs.clear db.program_rows;
        source_rows = sources.clear db.source_rows;
        job_rows = jobs.clear db.job_rows;
      } in
      (
        record { program_rows = program_rows; source_rows = source_rows; job_rows = job_rows },
        seed_unless-empty _ d cleared _ (sources.rows-clear db.source_rows) (
            flushed_lem d cleared source_rows program_rows job_rows s.inserted p.inserted
              j.inserted),
        record {
          sources_stored =
              s.grown
              ∙ omega (
                arith,
                size-clear sources db.source_rows,
                length-map new_row (build_sample_sources d.sources_at),
                length-sources_of d,
              );
          programs_stored =
              p.grown
              ∙ omega (
                arith,
                size-clear programs db.program_rows,
                length-build_sample_programs d.program_ids d.programs_at (ids_of d),
              );
          jobs_stored = j.grown ∙ omega (arith, size-clear jobs db.job_rows, length-jobs_of d);
          covered = covers d _ _ p.counted (programs.rows-clear db.program_rows);
        },
        λ again. skipped _ again _ (omega (arith, s.counted (λ r. true), count-sources_of d)),
      )
