-- ===== src/Infra/Sources.antt =====
-- infrastructure/persistence/source_repository_impl.py, with `SourceRow` of models.py and the limits
-- of domain/models/source.py, which pydantic checks when a `TVListSource` is built and not when a
-- field is assigned.
pub mod Laws
pub mod Reads
use mini_agent_go.Prelude.{
  ℕ, zero, suc, ◌+◌, ◌-◌, ◌*◌, ◌/◌, ◌%◌, ◌≤◌, ◌<◌, ◌≡◌, refl, sym, ap, ◌∙◌, ◌≢◌, ◌↔◌, ◌⊎◌, inl, inr,
  Bool, true, false, not, ◌&&◌, ◌||◌, Option, none, some, List, [], ◌∷◌, ◌++◌, map, arith, ltb, leb,
  eqb, if◌then◌else◌, eqb_iff, Bool-cases, Option-cases, is_some, get_or, length, take, filter, all,
  find, All, length-append, length-filter, length-take, length-map, All-append, Text, codes,
  empty_text, is_empty, or_text, some_text, all_text, ◌==◌, decimal, eq_iff, eq_refl, eq-false,
  eq_sym, Outcome, ok, err, ◌>>=◌, >>=-eq-ok,
}
use mini_agent_go.Prelude.Dict.{Dict}
use mini_agent_go.Core.Exceptions.{Exn, raise, value_error, validation}
use mini_agent_go.Domain.Models.{
  Json, SourceType, SourceStatus, TvListSource, type_value, status_value, to_type, to_status,
}
use mini_agent_go.Infra.Table.{Table}

pub record SourceRow : Type 0 where
  pub id : Text
  pub name : Text
  pub type : Text
  pub url : Option Text
  pub config : Dict Json
  pub headers : Dict Text
  pub cron : Text
  pub priority : ℕ
  pub status : Text
  pub parser : Text
  pub created_at : ℕ
  pub updated_at : ℕ

pub data SourceColumn : Type 0 where
  by_id : SourceColumn

abbrev pub source_cell : SourceColumn → SourceRow → Text
source_cell by_id r = r.id

-- `str(url) if url else None`
abbrev pub or_none : Option Text → Option Text
or_none none = none
or_none (some []) = none
or_none (some (c ∷ s)) = some (c ∷ s)

-- the `Field` limits
unfoldable pub is_valid : TvListSource → Bool
is_valid s = leb 1 (length s.name) && (leb (length s.name) 255 && leb s.priority 10)

-- `TVListSource(…)`
unfoldable pub make_source : TvListSource → Outcome Exn TvListSource
unfolding is_valid
make_source s = if is_valid s then ok s else raise validation empty_text

build : SourceRow → Option SourceType → Option SourceStatus → Outcome Exn TvListSource
build r none st = raise value_error r.type
build r (some ty) none = raise value_error r.status
build r (some ty) (some st) = make_source (record {
  id = r.id;
  name = r.name;
  type = ty;
  url = r.url;
  config = r.config;
  headers = r.headers;
  cron = r.cron;
  priority = r.priority;
  status = st;
  parser = r.parser;
  created_at = r.created_at;
  updated_at = r.updated_at;
})

-- `_to_domain`
unfoldable pub to_domain : SourceRow → Outcome Exn TvListSource
unfolding build
to_domain r = build r (to_type r.type) (to_status r.status)

-- the row that `add` builds
unfoldable pub new_row : TvListSource → SourceRow
new_row s = record {
  id = s.id;
  name = s.name;
  type = type_value s.type;
  url = or_none s.url;
  config = s.config;
  headers = s.headers;
  cron = s.cron;
  priority = s.priority;
  status = status_value s.status;
  parser = s.parser;
  created_at = s.created_at;
  updated_at = s.updated_at;
}

-- what `update` assigns
unfoldable pub overwrite : ℕ → TvListSource → SourceRow → SourceRow
overwrite now s r = record r {
  name = s.name;
  type = type_value s.type;
  url = or_none s.url;
  config = s.config;
  headers = s.headers;
  cron = s.cron;
  priority = s.priority;
  status = status_value s.status;
  parser = s.parser;
  updated_at = now;
}

-- `[self._to_domain(r) for r in rows]`
unfoldable pub to_domains : List SourceRow → Outcome Exn (List TvListSource)
to_domains [] = ok []
to_domains (r ∷ rs) = do s ← to_domain r; ss ← to_domains rs; ok (s ∷ ss)

module _ (table : Table SourceRow SourceColumn source_cell) where
  open table use {Store, find, rows, insert, update as flush_update, delete as flush_delete}

  abbrev pub domain_of : Option SourceRow → Outcome Exn (Option TvListSource)
  domain_of none = ok none
  domain_of (some r) = do s ← to_domain r; ok (some s)

  unfoldable pub get : Text → Store → Outcome Exn (Option TvListSource)
  get source_id st = domain_of (find by_id source_id st)

  -- `status`, if it is given and not empty, is a condition
  has_status : Option Text → SourceRow → Bool
  has_status status r = is_empty (some_text status) || (r.status == some_text status)

  unfoldable pub list : Option Text → Store → Outcome Exn (List TvListSource)
  unfolding has_status
  list status st = to_domains (filter (has_status status) (rows st))

  unfoldable pub add : TvListSource → Store → Outcome Exn Store
  add s st = insert (new_row s) st

  update_row : ℕ → TvListSource → Store → Option SourceRow → Store
  update_row now s st none = st
  update_row now s st (some r) = flush_update r (overwrite now s r) st

  unfoldable pub update : ℕ → TvListSource → Store → Store
  unfolding update_row
  update now s st = update_row now s st (find by_id s.id st)

  delete_row : Store → Option SourceRow → Store
  delete_row st none = st
  delete_row st (some r) = flush_delete r st

  unfoldable pub delete : Text → Store → Store
  unfolding delete_row
  delete source_id st = delete_row st (find by_id source_id st)
