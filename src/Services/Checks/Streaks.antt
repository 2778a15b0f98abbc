-- ===== src/Services/Checks/Streaks.antt =====
-- How checks move a source's streak of failures, and pause it.
use mini_agent_go.Prelude.{
  ℕ, ◌+◌, ◌≡◌, refl, inl, inr, true, false, Option, leb, if◌then◌else◌, Bool-cases, Text, ◌==◌,
  Outcome, ok,
}
use mini_agent_go.Prelude.Dict.{Dict}
use mini_agent_go.Core.Exceptions.{Exn}
use mini_agent_go.Domain.Models.{TvListSource, paused}
use mini_agent_go.Infra.Table.{Table}
use mini_agent_go.Infra.Sources
use mini_agent_go.Infra.Sources.{SourceRow, SourceColumn, source_cell}
use mini_agent_go.Infra.Health.{
  SourceHealthRow, HealthColumn, health_cell, get_streak, get_streak-increment, get_streak-reset,
}
use mini_agent_go.Services.Checks.{check, check_one, Tick, counted}

module _ {R W : Type 0} (fetch : Text → Option (Dict Text) → W → Outcome Exn R × W) (now : W → ℕ)
    (sources : Table SourceRow SourceColumn source_cell)
    (health : Table SourceHealthRow HealthColumn health_cell) (threshold : ℕ) (s : TvListSource)
    (t : Tick fetch now sources health) where
  -- One check in the loop never raises. If the source is alive, its streak is 0 and the source stays
  -- as it is; if not, its streak is one more, and the source is paused exactly if that reaches the
  -- threshold, as one failure does of a source that was enabled again after it was paused. The streaks
  -- of other sources stay.
  pub check_one-streak :
      (k : Text)
      → let (h, w) = check fetch now s t.world in
        let (r, t') = check_one fetch now sources health threshold s t in
        let streak = get_streak health s.id t.health_rows in
        (r ≡ ok tt)
        × (h.is_alive ≡ true
            → (get_streak health k t'.health_rows
                ≡ (if s.id == k then 0 else get_streak health k t.health_rows))
              × (t'.source_rows ≡ t.source_rows))
        × (h.is_alive ≡ false
            → (get_streak health k t'.health_rows
                ≡ (if s.id == k then streak + 1 else get_streak health k t.health_rows))
              × (t'.source_rows ≡ (
                  if leb threshold (streak + 1)
                  then Sources.update sources (now w) (record s { status = paused }) t.source_rows
                  else t.source_rows)))
  unfolding check_one
  check_one-streak k = elim (Bool-cases (check fetch now s t.world).0.is_alive) [
    | inl a ↦ rw a (
      refl,
      (λ e.
          (get_streak-reset health (now (check fetch now s t.world).1) s.id k t.health_rows, refl)),
      (λ e. cc),
    )
    | inr d ↦
        let (h, w) = check fetch now s t.world in
        let (stepped, streaks) =
          get_streak-increment health (now w) s.id k t.health_rows h.message in
        rw (d, counted, stepped) (refl, (λ e. cc), (λ e. (streaks, refl)))
  ]
