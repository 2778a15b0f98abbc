-- ===== src/Services/Checks.antt =====
-- domain/services/health_check_service.py, interfaces/scheduler/jobs/health_check_job.py, the tick
-- of interfaces/api/app.py that runs it, and observability/health.py. `fetch` is any fetcher, `now`
-- the clock in milliseconds, and `W` what they work on.
pub mod Results
pub mod Streaks
use mini_agent_go.Prelude.{
  ℕ, zero, suc, ◌+◌, ◌-◌, ◌*◌, ◌/◌, ◌%◌, ◌≤◌, ◌<◌, ◌≡◌, refl, sym, ap, ◌∙◌, ◌≢◌, ◌↔◌, ◌⊎◌, inl, inr,
  Bool, true, false, not, ◌&&◌, ◌||◌, Option, none, some, List, [], ◌∷◌, ◌++◌, map, arith, ltb, leb,
  eqb, if◌then◌else◌, eqb_iff, Bool-cases, Option-cases, is_some, get_or, length, take, filter, all,
  find, All, length-append, length-filter, length-take, length-map, All-append, Text, codes,
  empty_text, is_empty, or_text, some_text, all_text, ◌==◌, decimal, eq_iff, eq_refl, eq-false,
  eq_sym, Outcome, ok, err, ◌>>=◌, >>=-eq-ok,
}
use mini_agent_go.Prelude.Dict.{Dict}
use mini_agent_go.Core.Exceptions.{Exn, is_instance, source_unavailable}
use mini_agent_go.Domain.Models.{SourceHealth, SourceStatus, paused, TvListSource, status_value}
use mini_agent_go.Infra.Table.{Table}
use mini_agent_go.Infra.Sources
use mini_agent_go.Infra.Sources.{SourceRow, SourceColumn, source_cell}
use mini_agent_go.Infra.Health
use mini_agent_go.Infra.Health.{SourceHealthRow, HealthColumn, health_cell}

-- `d or None`
abbrev pub headers_or_none : Dict Text → Option (Dict Text)
headers_or_none [] = none
headers_or_none (h ∷ hs) = some (h ∷ hs)

module _ {R W : Type 0} (fetch : Text → Option (Dict Text) → W → Outcome Exn R × W)
    (now : W → ℕ) where
  unfoldable pub failure_text : Exn → Text
  failure_text e =
      if is_instance e source_unavailable
      then take 500 e.message
      else take 500 (codes "unexpected: " ++ e.message)

  unfoldable pub report : TvListSource → ℕ → Outcome Exn R × W → SourceHealth × W
  unfolding failure_text
  report s start (ok r, w) = (
    record {
      source_id = s.id;
      is_alive = true;
      latency_ms = some (now w - start);
      checked_at = now w;
      message = none;
    },
    w,
  )
  report s start (err e, w) = (
    record {
      source_id = s.id;
      is_alive = false;
      latency_ms = none;
      checked_at = now w;
      message = some (failure_text e);
    },
    w,
  )

  -- `HealthCheckService.check`
  unfoldable pub check : TvListSource → W → SourceHealth × W
  unfolding report
  check s w =
      let url = some_text s.url in
      if is_empty url
      then (
        record {
          source_id = s.id;
          is_alive = false;
          latency_ms = none;
          checked_at = now w;
          message = some (codes "no url configured");
        },
        w,
      )
      else report s (now w) (fetch url (headers_or_none s.headers) w)

  -- `detailed_health`, on the sources of the repository
  pub record HealthLine : Type 0 where
    pub source_id : Text
    pub name : Text
    pub status : Text
    pub alive : Bool
    pub latency_ms : Option ℕ
    pub message : Option Text

  health_lines : List TvListSource → W → List HealthLine × W
  health_lines [] w = ([], w)
  health_lines (s ∷ ss) w =
      let (h, w') = check s w in
      let (ls, w'') = health_lines ss w' in
      (
        record {
          source_id = s.id;
          name = s.name;
          status = status_value s.status;
          alive = h.is_alive;
          latency_ms = h.latency_ms;
          message = h.message;
        }
            ∷ ls,
        w'',
      )

  unfoldable pub detailed_health : List TvListSource → W → (List HealthLine × Bool) × W
  unfolding health_lines
  detailed_health ss w = let (ls, w') = health_lines ss w in ((ls, all (λ l. l.alive) ls), w')

  module _ (sources : Table SourceRow SourceColumn source_cell)
      (health : Table SourceHealthRow HealthColumn health_cell) where
    pub record Tick : Type 0 where
      pub source_rows : sources.Store
      pub health_rows : health.Store
      pub world : W

    -- what follows `increment`
    counted : ℕ → TvListSource → Tick → Outcome Exn ℕ × health.Store → Outcome Exn (Unit {0}) × Tick
    counted threshold s t (err e, hs) = (err e, record t { health_rows = hs })
    counted threshold s t (ok streak, hs) = (
      ok tt,
      record t {
        health_rows = hs;
        source_rows =
            if leb threshold streak
            then Sources.update sources (now t.world) (record s { status = paused }) t.source_rows
            else t.source_rows;
      },
    )

    -- the body of the loop
    unfoldable pub check_one : ℕ → TvListSource → Tick → Outcome Exn (Unit {0}) × Tick
    unfolding counted
    check_one threshold s t =
        let (h, w) = check s t.world in
        if h.is_alive
        then (
          ok tt,
          record t { health_rows = Health.reset health (now w) s.id t.health_rows; world = w },
        )
        else counted threshold s (record t { world = w })
            (Health.increment health (now w) s.id h.message t.health_rows)

    after_one :
        (Tick → Outcome Exn (Unit {0}) × Tick)
        → Outcome Exn (Unit {0}) × Tick
        → Outcome Exn (Unit {0}) × Tick
    after_one next (ok u, t) = next t
    after_one next (err e, t) = (err e, t)

    check_each : ℕ → List TvListSource → Tick → Outcome Exn (Unit {0}) × Tick
    unfolding after_one
    check_each threshold [] t = (ok tt, t)
    check_each threshold (s ∷ ss) t = after_one (check_each threshold ss) (check_one threshold s t)

    with_sources : ℕ → Tick → Outcome Exn (List TvListSource) → Outcome Exn (Unit {0}) × Tick
    unfolding check_each
    with_sources threshold t (ok ss) = check_each threshold ss t
    with_sources threshold t (err e) = (err e, t)

    unfoldable pub health_check_loop : ℕ → Tick → Outcome Exn (Unit {0}) × Tick
    unfolding with_sources
    health_check_loop threshold t =
        with_sources threshold t (Sources.list sources (some (codes "active")) t.source_rows)

    committed : Tick → Outcome Exn (Unit {0}) × Tick → Tick
    committed t (ok u, t') = t'
    committed t (err e, t') = record t { world = t'.world }

    -- `_health_tick`: commit, or roll back what the loop has written
    unfoldable pub health_tick : ℕ → Tick → Tick
    unfolding committed
    health_tick threshold t = committed t (health_check_loop threshold t)
