-- ===== src/Api/Seed/Parts.antt =====
-- How many rows the builders make, and that sources and jobs share no id.
use mini_agent_go.Prelude.{
  ℕ, zero, suc, ◌+◌, ◌≡◌, refl, ap, ◌∙◌, false, List, [], ◌∷◌, map, arith, length, All,
  length-append, Text, codes, ◌==◌, eq-false,
}
use mathlib.Core.List.{append_cancel_left}
use mini_agent_go.Infra.Table.Bulk.{Apart, AreApart}
use mini_agent_go.Infra.Sources.{SourceRow, SourceColumn, source_cell, new_row}
use mini_agent_go.Infra.Sources as S
use mini_agent_go.Infra.Jobs.{JobRow, JobColumn, job_cell}
use mini_agent_go.Infra.Jobs as J
use mini_agent_go.Api.Samples.{ChannelDef, channel_defs, build_sample_sources, JobSpec}
use mini_agent_go.Api.Seed.{
  slot_count, slots, channel_rows, build_sample_programs, job_row, job_rows_from, Draw,
}

length-slots :
    (program_ids : ℕ → ℕ → Text) (now : ℕ) (source_ids : List Text) (idx : ℕ) (ch : ChannelDef)
    (i left : ℕ)
    → length (slots program_ids now source_ids idx ch i left) ≡ left
unfolding slots
length-slots program_ids now source_ids idx ch i zero = refl
length-slots program_ids now source_ids idx ch i (suc left) =
    ap suc (length-slots program_ids now source_ids idx ch (i + 1) left)

abbrev slots_in_all : List ChannelDef → ℕ
slots_in_all [] = 0
slots_in_all (ch ∷ chs) = slot_count ch.category + slots_in_all chs

length-channel_rows :
    (program_ids : ℕ → ℕ → Text) (now : ℕ) (source_ids : List Text) (idx : ℕ)
    (chs : List ChannelDef)
    → length (channel_rows program_ids now source_ids idx chs) ≡ slots_in_all chs
unfolding channel_rows
length-channel_rows program_ids now source_ids idx [] = refl
length-channel_rows program_ids now source_ids idx (ch ∷ chs) =
    length-append (slots program_ids now source_ids idx ch 0 (slot_count ch.category))
      (channel_rows program_ids now source_ids (idx + 1) chs)
    ∙ omega (
      arith,
      length-slots program_ids now source_ids idx ch 0 (slot_count ch.category),
      length-channel_rows program_ids now source_ids (idx + 1) chs,
    )

slots_in_all-channel_defs : slots_in_all channel_defs ≡ 768
unfolding channel_defs slot_count
slots_in_all-channel_defs = refl

pub length-build_sample_programs :
    (program_ids : ℕ → ℕ → Text) (now : ℕ) (source_ids : List Text)
    → length (build_sample_programs program_ids now source_ids) ≡ 768
unfolding build_sample_programs
length-build_sample_programs program_ids now source_ids =
    length-channel_rows program_ids now source_ids 0 channel_defs ∙ slots_in_all-channel_defs

Apart-source : (r q : SourceRow) → (r.id == q.id) ≡ false → Apart source_cell r q
Apart-source r q h S.by_id = h

pub sources-AreApart : (now : ℕ) → AreApart source_cell (map new_row (build_sample_sources now))
unfolding build_sample_sources new_row ◌==◌
sources-AreApart now =
    ((Apart-source _ _ refl, (Apart-source _ _ refl, tt)), ((Apart-source _ _ refl, tt), (tt, tt)))

module _ (d : Draw) (differ : (i j : ℕ) → d.job_ids i ≡ d.job_ids j → i ≡ j)
    (source_ids : List Text) where
  abbrev made : ℕ → JobSpec → JobRow
  made = job_row d.job_ids d.trace_ids d.jobs_at source_ids

  later_jobs :
      (i k : ℕ) (s : JobSpec) (ss : List JobSpec)
      → All
          (Apart job_cell (made i s))
          (job_rows_from d.job_ids d.trace_ids d.jobs_at source_ids (i + 1 + k) ss)
  unfolding job_rows_from job_row
  later_jobs i k s [] = tt
  later_jobs i k s (q ∷ qs) =
      let next : i + 1 + k + 1 ≡ i + 1 + (k + 1) = omega arith in
      (apart, rw next (later_jobs i (k + 1) s qs))
    where
      apart : Apart job_cell (made i s) (made (i + 1 + k) q)
      apart J.by_id = eq-false _ _ λ e.
          absurd (omega (arith, differ i (i + 1 + k) (append_cancel_left (codes "job_") _ _ e)))

  pub jobs-AreApart :
      (i : ℕ) (ss : List JobSpec)
      → AreApart job_cell (job_rows_from d.job_ids d.trace_ids d.jobs_at source_ids i ss)
  unfolding job_rows_from
  jobs-AreApart i [] = tt
  jobs-AreApart i (s ∷ ss) =
      let start : i + 1 + 0 ≡ i + 1 = omega arith in
      (rw start at (later_jobs i 0 s ss), jobs-AreApart (i + 1) ss)
