-- ===== src/Services/Registry.antt =====
-- domain/services/source_registry.py over the SQLAlchemy repository.
use mini_agent_go.Infra.Sources.Reads.{get-row, make_source-valid}
use mini_agent_go.Infra.Sources.Laws.{written, get-update}
use mini_agent_go.Prelude.{
  ℕ, Option, none, some, List, Text, Outcome, ok, err, ◌≡◌, if◌then◌else◌, ◌==◌, refl, ◌∙◌, true,
  ap, ◌>>=◌, sym,
}
use mini_agent_go.Core.Exceptions.{Exn}
use mini_agent_go.Domain.Models.{SourceStatus, active, paused, disabled, TvListSource, status_value}
use mini_agent_go.Infra.Table.{Table}
use mini_agent_go.Infra.Sources.{
  SourceRow, SourceColumn, source_cell, get, list, update, by_id, is_valid, make_source,
}

module _ (table : Table SourceRow SourceColumn source_cell) where
  open table use {Store, find, find-cell}

  unfoldable pub active_sources : Store → Outcome Exn (List TvListSource)
  active_sources st = list table (some (status_value active)) st

  unfoldable pub all_sources : Store → Outcome Exn (List TvListSource)
  all_sources st = list table none st

  switch_found :
      ℕ → SourceStatus → Store → Outcome Exn (Option TvListSource) → Outcome Exn (Unit {0}) × Store
  switch_found now to st (ok none) = (ok tt, st)
  switch_found now to st (ok (some s)) = (ok tt, update table now (record s { status = to }) st)
  switch_found now to st (err e) = (err e, st)

  -- the three methods differ in the status that they assign
  switch : ℕ → SourceStatus → Text → Store → Outcome Exn (Unit {0}) × Store
  unfolding switch_found
  switch now to source_id st = switch_found now to st (get table source_id st)

  unfoldable pub enable : ℕ → Text → Store → Outcome Exn (Unit {0}) × Store
  unfolding switch
  enable now = switch now active

  unfoldable pub disable : ℕ → Text → Store → Outcome Exn (Unit {0}) × Store
  unfolding switch
  disable now = switch now disabled

  unfoldable pub pause : ℕ → Text → Store → Outcome Exn (Unit {0}) × Store
  unfolding switch
  pause now = switch now paused

  -- The three methods set the status of the source that is named and the time of the change, and no
  -- other field; other ids find what they found.
  switch-known :
      (now : ℕ) (to : SourceStatus) (id k : Text) (s : TvListSource) (st : Store)
      → get table id st ≡ ok (some s)
      → let (r, st') = switch now to id st in
        (r ≡ ok tt)
        × (get table k st' ≡ (
            if id == k
            then ok (some (record (written s) { status = to; updated_at = now }))
            else get table k st))
  unfolding switch
  switch-known now to id k s st h =
      let (row, found, read) = get-row table id st s h in
      let same : s.id ≡ id = read.id ∙ find-cell by_id id st row found in
      let s' = record s { status = to } in
      let changed = record (written s) { status = to; updated_at = now } in
      let valid : is_valid changed ≡ true = unfold is_valid in read.valid in
      rw (h, switch_found)
        (
          refl,
          get-update table s' st now row k (ap (λ (i : Text). find by_id i st) same ∙ found)
              ∙ ap
                  (λ (c : ℕ).
                    if s.id == k
                    then (do t ← make_source (record changed { created_at = c }); ok (some t))
                    else get table k st)
                  (sym read.created_at)
              ∙ ap
                  (λ (o : Outcome Exn TvListSource).
                    if s.id == k then (do t ← o; ok (some t)) else get table k st)
                  (make_source-valid changed valid)
              ∙ ap (λ (i : Text). if i == k then ok (some changed) else get table k st) same,
        )

  switch-unknown :
      (now : ℕ) (to : SourceStatus) (id : Text) (st : Store)
      → get table id st ≡ ok none
      → switch now to id st ≡ (ok tt, st)
  unfolding switch
  switch-unknown now to id st h = rw (h, switch_found) refl

  -- What `enable`, `disable` and `pause` do to each id: the named source, if there is one, gets the
  -- status and the time of the change, and keeps its other fields; all other ids find what they
  -- found. To name an unknown id changes nothing.
  pub get-switch :
      (now : ℕ) (id k : Text) (s : TvListSource) (st : Store)
      → get table id st ≡ ok (some s)
      → let after = λ (to : SourceStatus).
        if id == k
        then ok (some (record (written s) { status = to; updated_at = now }))
        else get table k st in
        (get table k (enable now id st).1 ≡ after active)
        × (get table k (disable now id st).1 ≡ after disabled)
        × (get table k (pause now id st).1 ≡ after paused)
  unfolding enable disable pause
  get-switch now id k s st h = (
    (switch-known now active id k s st h).1,
    (switch-known now disabled id k s st h).1,
    (switch-known now paused id k s st h).1,
  )
