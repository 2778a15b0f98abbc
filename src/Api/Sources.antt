-- ===== src/Api/Sources.antt =====
-- interfaces/api/routers/sources.py, with the requests of schemas/source.py. `claims` is what
-- `require_role("admin")` gave, and the store is what is committed: a handler that raises commits
-- nothing.
pub mod Effects
use mini_agent_go.Prelude.{
  ℕ, zero, suc, ◌+◌, ◌-◌, ◌*◌, ◌/◌, ◌%◌, ◌≤◌, ◌<◌, ◌≡◌, refl, sym, ap, ◌∙◌, ◌≢◌, ◌↔◌, ◌⊎◌, inl, inr,
  Bool, true, false, not, ◌&&◌, ◌||◌, Option, none, some, List, [], ◌∷◌, ◌++◌, map, arith, ltb, leb,
  eqb, if◌then◌else◌, eqb_iff, Bool-cases, Option-cases, is_some, get_or, length, take, filter, all,
  find, All, length-append, length-filter, length-take, length-map, All-append, Text, codes,
  empty_text, is_empty, or_text, some_text, all_text, ◌==◌, decimal, eq_iff, eq_refl, eq-false,
  eq_sym, Outcome, ok, err, ◌>>=◌, >>=-eq-ok,
}
use mini_agent_go.Prelude.Dict.{Dict}
use mini_agent_go.Core.Exceptions.{Exn, raise, http}
use mini_agent_go.Domain.Models.{Json, SourceType, SourceStatus, active, disabled, TvListSource}
use mini_agent_go.Infra.Table.{Table}
use mini_agent_go.Infra.Sources
use mini_agent_go.Infra.Sources.{SourceRow, SourceColumn, source_cell, make_source}
use mini_agent_go.Api.Security.{Claims}

pub record SourceCreate : Type 0 where
  pub id : Option Text
  pub name : Text
  pub type : SourceType
  pub url : Option Text
  pub config : Dict Json
  pub headers : Dict Text
  pub cron : Text
  pub priority : ℕ
  pub parser : Text

-- `payload.model_dump(exclude_unset=True)`: `none` is a field that was not sent. A field other than
-- `url` that was sent as null is left out here: pydantic would take it, and the column refuse it.
pub record SourceUpdate : Type 0 where
  pub name : Option Text
  pub type : Option SourceType
  pub url : Option (Option Text)
  pub config : Option (Dict Json)
  pub headers : Option (Dict Text)
  pub cron : Option Text
  pub priority : Option ℕ
  pub parser : Option Text

-- the loop of `setattr`
unfoldable pub changed : SourceUpdate → ℕ → TvListSource → TvListSource
changed p now s = record s {
  name = get_or p.name s.name;
  type = get_or p.type s.type;
  url = get_or p.url s.url;
  config = get_or p.config s.config;
  headers = get_or p.headers s.headers;
  cron = get_or p.cron s.cron;
  priority = get_or p.priority s.priority;
  parser = get_or p.parser s.parser;
  updated_at = now;
}

not_found : Exn
not_found = record { cls = http 404; message = codes "source not found" }

module _ (table : Table SourceRow SourceColumn source_cell) where
  open table use {Store}

  -- a handler with `dependencies=[Depends(require_role(ROLE_ADMIN))]`
  as_admin :
      {A : Type 0} → Outcome Exn Claims → Store → Outcome Exn A × Store → Outcome Exn A × Store
  as_admin (err e) st run = (err e, st)
  as_admin (ok c) st run = run

  added : TvListSource → Store → Outcome Exn Store → Outcome Exn TvListSource × Store
  added s st (err e) = (err e, st)
  added s st (ok st') = (ok s, st')

  created : Store → Outcome Exn TvListSource → Outcome Exn TvListSource × Store
  unfolding added
  created st (err e) = (err e, st)
  created st (ok s) = added s st (Sources.add table s st)

  unfoldable pub create_source :
      Outcome Exn Claims → Text → ℕ → SourceCreate → Store → Outcome Exn TvListSource × Store
  unfolding as_admin created
  create_source claims new_id now p st = as_admin claims st (
      created st (
        make_source (record {
          id = or_text (some_text p.id) new_id;
          name = p.name;
          type = p.type;
          url = p.url;
          config = p.config;
          headers = p.headers;
          cron = p.cron;
          priority = p.priority;
          status = active;
          parser = p.parser;
          created_at = now;
          updated_at = now;
        })))

  unfoldable pub list_sources : Store → Outcome Exn (List TvListSource)
  list_sources st = Sources.list table none st

  found : Outcome Exn (Option TvListSource) → Outcome Exn TvListSource
  unfolding not_found
  found (err e) = err e
  found (ok none) = err not_found
  found (ok (some s)) = ok s

  unfoldable pub get_source : Text → Store → Outcome Exn TvListSource
  unfolding found
  get_source source_id st = found (Sources.get table source_id st)

  unfoldable pub delete_source : Outcome Exn Claims → Text → Store → Outcome Exn (Unit {0}) × Store
  unfolding as_admin
  delete_source claims source_id st = as_admin claims st (ok tt, Sources.delete table source_id st)

  -- what follows the `get` of the source in the handlers that change one
  put_back :
      ℕ
      → (TvListSource → TvListSource)
      → Store
      → Outcome Exn TvListSource
      → Outcome Exn TvListSource × Store
  put_back now change st (err e) = (err e, st)
  put_back now change st (ok s) = (ok (change s), Sources.update table now (change s) st)

  done : {A : Type 0} → Outcome Exn A × Store → Outcome Exn (Unit {0}) × Store
  done (err e, st) = (err e, st)
  done (ok a, st) = (ok tt, st)

  unfoldable pub enable_source :
      Outcome Exn Claims → ℕ → Text → Store → Outcome Exn (Unit {0}) × Store
  unfolding as_admin put_back done get_source
  enable_source claims now source_id st =
      as_admin claims st
        (done (put_back now (λ s. record s { status = active }) st (get_source source_id st)))

  unfoldable pub disable_source :
      Outcome Exn Claims → ℕ → Text → Store → Outcome Exn (Unit {0}) × Store
  unfolding as_admin put_back done get_source
  disable_source claims now source_id st =
      as_admin claims st
        (done (put_back now (λ s. record s { status = disabled }) st (get_source source_id st)))

  unfoldable pub update_source :
      Outcome Exn Claims → ℕ → Text → SourceUpdate → Store → Outcome Exn TvListSource × Store
  unfolding as_admin put_back get_source changed
  update_source claims now source_id p st =
      as_admin claims st (put_back now (changed p now) st (get_source source_id st))
