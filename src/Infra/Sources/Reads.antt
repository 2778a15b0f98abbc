-- ===== src/Infra/Sources/Reads.antt =====
-- What a source that was read from a row tells of the row.
use mini_agent_go.Prelude.{
  ◌≡◌, refl, ap, ◌∙◌, ◌⊎◌, inl, inr, true, false, Option, none, some, arith, Bool-cases, Text,
  Outcome, ok, err, ◌>>=◌,
}
use mini_agent_go.Core.Exceptions.{Exn}
use mini_agent_go.Domain.Models.{SourceType, SourceStatus, TvListSource, to_type, to_status}
use mini_agent_go.Infra.Table.{Table}
use mini_agent_go.Infra.Sources.{
  SourceRow, SourceColumn, by_id, source_cell, is_valid, make_source, build, to_domain, get,
  domain_of,
}

-- The source has the row's id and times, and keeps the limits.
pub record IsRead (r : SourceRow) (s : TvListSource) : Type 0 where
  pub id : s.id ≡ r.id
  pub created_at : s.created_at ≡ r.created_at
  pub valid : is_valid s ≡ true

pub make_source-valid : (s : TvListSource) → is_valid s ≡ true → make_source s ≡ ok s
unfolding make_source
make_source-valid s h = rw h refl

make_source-ok : (s t : TvListSource) → make_source s ≡ ok t → (t ≡ s) × (is_valid s ≡ true)
unfolding make_source
make_source-ok s t h = go (Bool-cases (is_valid s)) h
  where
    go :
        (is_valid s ≡ true) ⊎ (is_valid s ≡ false)
        → make_source s ≡ ok t
        → (t ≡ s) × (is_valid s ≡ true)
    go (inl v) k = (ground arith, v)
    go (inr v) k = ground arith

pub to_domain-IsRead : (r : SourceRow) (s : TvListSource) → to_domain r ≡ ok s → IsRead r s
unfolding to_domain
to_domain-IsRead r s h = go (to_type r.type) (to_status r.status) h
  where
    go : (ty : Option SourceType) (st : Option SourceStatus) → build r ty st ≡ ok s → IsRead r s
    go none st k = unfold build in cc
    go (some ty) none k = unfold build in cc
    go (some ty) (some st) k =
        unfold build in
        let (e, v) = make_source-ok _ s k in
        record {
          id = ap (λ (t : TvListSource). t.id) e;
          created_at = ap (λ (t : TvListSource). t.created_at) e;
          valid = ap is_valid e ∙ v;
        }

pub get-row :
    (table : Table SourceRow SourceColumn source_cell) (id : Text) (st : table.Store)
    (s : TvListSource)
    → get table id st ≡ ok (some s)
    → (r : SourceRow) × (table.find by_id id st ≡ some r) × IsRead r s
unfolding get
get-row table id st s h = go (table.find by_id id st) refl h
  where
    of_read :
        (r : SourceRow) (o : Outcome Exn TvListSource)
        → to_domain r ≡ o
        → (do t ← o; ok (some t)) ≡ ok (some s)
        → IsRead r s
    of_read r (ok t) e k = to_domain-IsRead r s (e ∙ ground arith)
    of_read r (err x) e k = cc

    go :
        (o : Option SourceRow)
        → table.find by_id id st ≡ o
        → domain_of table o ≡ ok (some s)
        → (r : SourceRow) × (table.find by_id id st ≡ some r) × IsRead r s
    go none e k = cc
    go (some r) e k = (r, e, of_read r (to_domain r) refl k)
