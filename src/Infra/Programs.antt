-- ===== src/Infra/Programs.antt =====
-- infrastructure/persistence/program_repository_impl.py and `ProgramRow` of models.py. `repr` is
-- `str` of a JSON value that is no text. The rows are those of programs that pydantic has accepted, so
-- that its checks of lengths are not made again.
pub mod Mapping
pub mod Upsert
pub mod Catalogue
use mini_agent_go.Prelude.{
  ℕ, zero, suc, ◌+◌, ◌-◌, ◌*◌, ◌/◌, ◌%◌, ◌≤◌, ◌<◌, ◌≡◌, refl, sym, ap, ◌∙◌, ◌≢◌, ◌↔◌, ◌⊎◌, inl, inr,
  Bool, true, false, not, ◌&&◌, ◌||◌, Option, none, some, List, [], ◌∷◌, ◌++◌, map, arith, ltb, leb,
  eqb, if◌then◌else◌, eqb_iff, Bool-cases, Option-cases, is_some, get_or, length, take, filter, all,
  find, All, length-append, length-filter, length-take, length-map, All-append, Text, codes,
  empty_text, is_empty, or_text, some_text, all_text, ◌==◌, decimal, eq_iff, eq_refl, eq-false,
  eq_sym, Outcome, ok, err, ◌>>=◌, >>=-eq-ok,
}
use mini_agent_go.Prelude.Sorted.{sorted_set}
use mini_agent_go.Core.Exceptions.{Exn}
use mini_agent_go.Domain.Models.{
  Json, null, bool, number, text, array, object, Members, end, member, Tag, Channel, TimeSlot,
  TvProgram,
}
use mini_agent_go.Infra.Table.{Table}

pub record ProgramRow : Type 0 where
  pub id : Text
  pub title : Text
  pub description : Option Text
  pub channel_id : Text
  pub channel_name : Text
  pub channel_logo : Option Text
  pub channel_country : Option Text
  pub channel_language : Option Text
  pub start_at : ℕ
  pub end_at : ℕ
  pub timezone : Text
  pub tags : List Json
  pub source_ids : List Text
  pub identity_key : Text
  pub version : ℕ
  pub created_at : ℕ
  pub updated_at : ℕ

-- the columns with `primary_key=True` and `unique=True`
pub data ProgramColumn : Type 0 where
  by_id by_identity : ProgramColumn

abbrev pub program_cell : ProgramColumn → ProgramRow → Text
program_cell by_id r = r.id
program_cell by_identity r = r.identity_key

-- `d.get(k)` on a JSON object; the last of equal keys counts
unfoldable pub field : Text → Members → Option Json
field k end = none
field k (member j v m) = let rest = field k m in if j == k then some (get_or rest v) else rest

-- `str(v)`
abbrev pub str : (Json → Text) → Json → Text
str repr (text s) = s
str repr v = repr v

-- `{"label": t.label, "category": t.category}`
unfoldable pub dump_tag : Tag → Json
dump_tag t =
    object (member (codes "label") (text t.label) (member (codes "category") (text t.category) end))

module _ (repr : Json → Text) where
  unfoldable pub tag_of : Option Json → Option Json → List Tag
  tag_of (some l) (some c) = record { label = str repr l; category = str repr c } ∷ []
  tag_of (some l) none = []
  tag_of none c = []

  unfoldable pub load_tag : Json → List Tag
  unfolding tag_of field
  load_tag (object m) = tag_of (field (codes "label") m) (field (codes "category") m)
  load_tag v = []

  unfoldable pub load_tags : List Json → List Tag
  unfolding load_tag
  load_tags [] = []
  load_tags (v ∷ vs) = load_tag v ++ load_tags vs

  -- `_to_domain`
  unfoldable pub to_domain : ProgramRow → TvProgram
  unfolding load_tags
  to_domain r = record {
    id = some r.id;
    title = r.title;
    description = r.description;
    channel = record {
      id = r.channel_id;
      name = r.channel_name;
      logo_url = r.channel_logo;
      country = r.channel_country;
      language = r.channel_language;
    };
    slot = record { start = r.start_at; finish = r.end_at; timezone = r.timezone };
    tags = load_tags r.tags;
    source_ids = r.source_ids;
    identity_key = r.identity_key;
    created_at = r.created_at;
    updated_at = r.updated_at;
    version = r.version;
  }

-- `_from_domain`; a `HttpUrl` is never the empty text
unfoldable pub from_domain : TvProgram → ProgramRow
unfolding dump_tag
from_domain p = record {
  id = some_text p.id;
  title = p.title;
  description = p.description;
  channel_id = p.channel.id;
  channel_name = p.channel.name;
  channel_logo = p.channel.logo_url;
  channel_country = p.channel.country;
  channel_language = p.channel.language;
  start_at = p.slot.start;
  end_at = p.slot.finish;
  timezone = p.slot.timezone;
  tags = map dump_tag p.tags;
  source_ids = p.source_ids;
  identity_key = p.identity_key;
  version = p.version;
  created_at = p.created_at;
  updated_at = p.updated_at;
}

-- what `upsert` assigns to a row that is there
unfoldable pub overwrite : ℕ → TvProgram → ProgramRow → ProgramRow
unfolding dump_tag
overwrite now p r = record r {
  title = p.title;
  description = p.description;
  start_at = p.slot.start;
  end_at = p.slot.finish;
  tags = map dump_tag p.tags;
  source_ids = sorted_set (r.source_ids ++ p.source_ids);
  version = r.version + 1;
  updated_at = now;
}

module _ (repr : Json → Text) (table : Table ProgramRow ProgramColumn program_cell) where
  open table use {Store, find, rows, size, insert, update}

  -- `self._to_domain(row) if row else None`
  abbrev pub domain_of : Option ProgramRow → Option TvProgram
  domain_of none = none
  domain_of (some r) = some (to_domain repr r)

  unfoldable pub find_by_identity : Text → Store → Option TvProgram
  find_by_identity key s = domain_of (find by_identity key s)

  -- A flush that fails rolls the session's transaction back; the session is of no use until that is
  -- confirmed by a rollback.
  stored : ProgramRow → Store → Outcome Exn Store → Outcome Exn TvProgram × Store
  stored r s (ok s') = (ok (to_domain repr r), s')
  stored r s (err e) = (err e, table.rolled_back s)

  upsert_row : ℕ → TvProgram → Store → Option ProgramRow → Outcome Exn TvProgram × Store
  unfolding stored
  upsert_row now p s (some r) =
      let r' = overwrite now p r in (ok (to_domain repr r'), update r r' s)
  upsert_row now p s none = let r = from_domain p in stored r s (insert r s)

  unfoldable pub upsert : ℕ → TvProgram → Store → Outcome Exn TvProgram × Store
  unfolding upsert_row
  upsert now p s = upsert_row now p s (find by_identity p.identity_key s)

  -- `channel_id`, if it is given and not empty, is one more condition
  in_range : ℕ → ℕ → Option Text → ProgramRow → Bool
  in_range start finish channel_id r =
      leb start r.start_at
      && (ltb r.start_at finish
          && (is_empty (some_text channel_id) || (r.channel_id == some_text channel_id)))

  unfoldable pub list_by_range : ℕ → ℕ → Option Text → Store → List TvProgram
  unfolding in_range
  list_by_range start finish channel_id s =
      map (to_domain repr) (filter (in_range start finish channel_id) (rows s))

  unfoldable pub count : Store → ℕ
  count s = size s
