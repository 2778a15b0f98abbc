-- ===== src/Api/Dashboard/Best.antt =====
-- The top channels of the dashboard.
use mini_agent_go.Prelude.{
  ℕ, ◌≡◌, refl, ◌↔◌, true, List, [], ◌∷◌, map, arith, count, eq_iff, eq_refl,
}
use mini_agent_go.Prelude.Groups.Top.{IsTop, take-IsTop}
use mini_agent_go.Infra.Table.{Table}
use mini_agent_go.Infra.Programs.{ProgramRow, ProgramColumn, program_cell}
use mini_agent_go.Infra.Sources.{SourceRow, SourceColumn, source_cell}
use mini_agent_go.Infra.Jobs.{JobRow, JobColumn, job_cell}
use mini_agent_go.Api.Dashboard.{TopKey, same_top, top_key, top_channels}

pub same_top_iff : (a b : TopKey) → (same_top a b ≡ true) ↔ (a ≡ b)
unfolding same_top
same_top_iff a b = (
  λ h. ground (arith, eq_iff a.channel_id b.channel_id, eq_iff a.channel_name b.channel_name),
  λ e. rw e (ground (arith, eq_refl b.channel_id, eq_refl b.channel_name)),
)

count-top_key :
    (k : TopKey) (rs : List ProgramRow)
    → count (λ j. same_top j k) (map top_key rs) ≡ count (λ r. same_top (top_key r) k) rs
count-top_key k [] = refl
count-top_key k (r ∷ rs) = omega (arith, count-top_key k rs)

module _ (programs : Table ProgramRow ProgramColumn program_cell)
    (sources : Table SourceRow SourceColumn source_cell)
    (jobs : Table JobRow JobColumn job_cell) where
  -- The items of the top channels: at most as many as asked for, the one with most programs first,
  -- no two of one channel, each with the number of programs of its id and name; and a channel is
  -- left out only if it has no program, or there are as many items as asked for and each has at least
  -- as many programs.
  pub top_channels-IsTop :
      (limit : ℕ) (st : programs.Store)
      → IsTop same_top limit
          (map top_key (programs.rows st))
          (top_channels programs sources jobs limit st)
  unfolding top_channels
  top_channels-IsTop limit st =
      take-IsTop same_top same_top_iff limit (map top_key (programs.rows st))
