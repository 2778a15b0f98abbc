-- ===== src/Api/Sources/Effects.antt =====
-- What a change of a source through the interface leaves in the repository.
use mini_agent_go.Prelude.{
  ℕ, ◌<◌, ◌≡◌, refl, sym, ap, ◌∙◌, none, some, arith, if◌then◌else◌, get_or, Text, codes,
  empty_text, ◌==◌, eq_refl, ok, err, ◌>>=◌,
}
use mini_agent_go.Core.Exceptions.{Exn, raise, validation, http}
use mini_agent_go.Domain.Models.{TvListSource}
use mini_agent_go.Infra.Table.{Table}
use mini_agent_go.Infra.Sources.{
  SourceRow, SourceColumn, source_cell, by_id, get, make_source, is_valid,
}
use mini_agent_go.Infra.Sources.Laws.{written, get-update}
use mini_agent_go.Infra.Sources.Reads.{get-row}
use mini_agent_go.Api.Security.{Claims}
use mini_agent_go.Api.Sources.{SourceUpdate, changed, update_source, get_source, found}

-- The source `s` after the update `p` at `now`: each field that was sent is the one sent, all else is
-- as it was.
pub record IsChanged (p : SourceUpdate) (now : ℕ) (s s' : TvListSource) : Type 0 where
  pub name : s'.name ≡ get_or p.name s.name
  pub type : s'.type ≡ get_or p.type s.type
  pub url : s'.url ≡ get_or p.url s.url
  pub config : s'.config ≡ get_or p.config s.config
  pub headers : s'.headers ≡ get_or p.headers s.headers
  pub cron : s'.cron ≡ get_or p.cron s.cron
  pub priority : s'.priority ≡ get_or p.priority s.priority
  pub parser : s'.parser ≡ get_or p.parser s.parser
  pub updated_at : s'.updated_at ≡ now
  pub id : s'.id ≡ s.id
  pub status : s'.status ≡ s.status
  pub created_at : s'.created_at ≡ s.created_at

changed-IsChanged :
    (p : SourceUpdate) (now : ℕ) (s : TvListSource) → IsChanged p now s (changed p now s)
unfolding changed
changed-IsChanged p now s = record {
  name = refl;
  type = refl;
  url = refl;
  config = refl;
  headers = refl;
  cron = refl;
  priority = refl;
  parser = refl;
  updated_at = refl;
  id = refl;
  status = refl;
  created_at = refl;
}

module _ (table : Table SourceRow SourceColumn source_cell) where
  open table use {Store, find, find-cell}

  update_source-changed :
      (c : Claims) (now : ℕ) (id k : Text) (p : SourceUpdate) (s : TvListSource) (st : Store)
      → get table id st ≡ ok (some s)
      → let (r, st') = update_source table (ok c) now id p st in
        (r ≡ ok (changed p now s))
        × (get table k st' ≡ (
            if id == k
            then (do t ← make_source (written (changed p now s)); ok (some t))
            else get table k st))
        × ((e : Exn) → update_source table (err e) now id p st ≡ (err e, st))
        × ((j : Text)
            → get table j st ≡ ok none
            → update_source table (ok c) now j p st
              ≡ (raise (http 404) (codes "source not found"), st))
  unfolding update_source
  update_source-changed c now id k p s st h =
      let (row, here, read) = get-row table id st s h in
      let same : s.id ≡ id = read.id ∙ find-cell by_id id st row here in
      let s' = changed p now s in
      let law =
        get-update table s' st now row k
          (unfold changed in ap (λ (i : Text). find by_id i st) same ∙ here) in
      (
        rw h refl,
        rw h (
            law
            ∙ (unfold changed in
                ap
                  (λ (b : ℕ).
                    if s.id == k
                    then (do
                      t ← make_source (record (written s') { created_at = b; updated_at = now })
                      ok (some t))
                    else get table k st)
                  (sym read.created_at)
                ∙ ap
                    (λ (i : Text).
                      if i == k
                      then (do t ← make_source (written s'); ok (some t))
                      else get table k st)
                    same)),
        (λ e. refl),
        (λ j g. rw g refl),
      )

  -- An update by an admin returns the source with the fields that were sent, and leaves that source
  -- under its id, if it is within the model's limits; other ids find what they found. An update of an
  -- unknown id is refused with 404 and one that `require_role` refuses with its error, and both change
  -- nothing.
  pub get-update_source :
      (c : Claims) (now : ℕ) (id k : Text) (p : SourceUpdate) (s : TvListSource) (st : Store)
      → get table id st ≡ ok (some s)
      → let (r, st') = update_source table (ok c) now id p st in
        ((s' : TvListSource) × IsChanged p now s s'
          × (r ≡ ok s')
          × (get table k st' ≡ (
              if id == k then (do t ← make_source (written s'); ok (some t)) else get table k st)))
        × ((e : Exn) → update_source table (err e) now id p st ≡ (err e, st))
        × ((j : Text)
            → get table j st ≡ ok none
            → update_source table (ok c) now j p st
              ≡ (raise (http 404) (codes "source not found"), st))
  get-update_source c now id k p s st h =
      let (returned, after, refused, unknown) = update_source-changed c now id k p s st h in
      ((changed p now s, changed-IsChanged p now s, returned, after), refused, unknown)

  invalid_priority :
      (s : TvListSource) → 10 < s.priority → make_source s ≡ raise validation empty_text
  unfolding make_source is_valid
  invalid_priority s h = ground arith

  -- An update with a priority above 10 is accepted and written, and from then on every read of that
  -- source raises a validation error.
  pub update_source-unreadable :
      (c : Claims) (now n : ℕ) (id : Text) (p : SourceUpdate) (s : TvListSource) (st : Store)
      → get table id st ≡ ok (some s)
      → p.priority ≡ some n
      → 10 < n
      → let (r, st') = update_source table (ok c) now id p st in
        (r ≡ ok (changed p now s)) × (get_source table id st' ≡ raise validation empty_text)
  unfolding get_source found
  update_source-unreadable c now n id p s st h e big =
      let (returned, after, _, _) = update_source-changed c now id id p s st h in
      let high : 10 < (written (changed p now s)).priority = unfold changed in rw e big in
      (returned, rw (after, eq_refl id, invalid_priority (written (changed p now s)) high) refl)
