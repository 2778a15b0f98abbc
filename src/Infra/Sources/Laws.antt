-- ===== src/Infra/Sources/Laws.antt =====
-- Sources as rows, and what `get` gives after each write.
use mini_agent_go.Prelude.{
  ℕ, ◌≡◌, refl, sym, ap, ◌∙◌, inl, inr, Bool, true, false, Option, none, some, if◌then◌else◌,
  Bool-cases, Text, ◌==◌, eq_iff, Outcome, ok, ◌>>=◌,
}
use mini_agent_go.Core.Exceptions.{Exn}
use mini_agent_go.Domain.Models.{TvListSource, to_type-type_value, to_status-status_value}
use mini_agent_go.Infra.Table.{Table}
use mini_agent_go.Infra.Sources.{
  SourceRow, SourceColumn, by_id, source_cell, or_none, make_source, to_domain, new_row, overwrite,
  get, add, update, delete, update_row, delete_row, domain_of,
}

-- A source as it comes back from a write.
abbrev pub written : TvListSource → TvListSource
written s = record s { url = or_none s.url }

to_domain-new_row : (s : TvListSource) → to_domain (new_row s) ≡ make_source (written s)
unfolding to_domain new_row
to_domain-new_row s = rw (to_type-type_value s.type, to_status-status_value s.status) refl

to_domain-overwrite :
    (now : ℕ) (s : TvListSource) (r : SourceRow)
    → to_domain (overwrite now s r)
      ≡ make_source (record (written s) { id = r.id; created_at = r.created_at; updated_at = now })
unfolding to_domain overwrite
to_domain-overwrite now s r = rw (to_type-type_value s.type, to_status-status_value s.status) refl

module _ (table : Table SourceRow SourceColumn source_cell) (s : TvListSource)
    (st : table.Store) where
  open table use {find, insert, find-cell, insert-fresh, insert-taken, find-update, find-delete}

  domain_of-if :
      (b : Bool) (r : SourceRow) (o : Option SourceRow)
      → domain_of table (if b then some r else o)
        ≡ (if b then (do t ← to_domain r; ok (some t)) else domain_of table o)
  domain_of-if true r o = refl
  domain_of-if false r o = refl

  -- A source with a new id is stored, and is then found, if it keeps the limits; the ids that were
  -- there find what they found.
  pub get-add :
      find by_id s.id st ≡ none
      → (st' : table.Store) × (add table s st ≡ ok st')
        × ((k : Text)
            → get table k st' ≡ (
                if s.id == k
                then (do t ← make_source (written s); ok (some t))
                else get table k st))
  unfolding add get
  get-add new =
      let (st', put, grown, found) = insert-fresh (new_row s) st free in
      (
        st',
        put,
        λ k.
            ap (domain_of table) (found by_id k)
            ∙ domain_of-if ((new_row s).id == k) (new_row s) (find by_id k st)
            ∙ (unfold new_row in
                ap
                  (λ (o : Outcome Exn TvListSource).
                    if s.id == k
                    then (do t ← o; ok (some t))
                    else domain_of table (find by_id k st))
                  (to_domain-new_row s)),
      )
    where
      free : (c : SourceColumn) → find c (source_cell c (new_row s)) st ≡ none
      free by_id = unfold new_row in new

  -- An update of a stored source: its id then finds the new fields, with the time of its creation
  -- kept, if they keep the limits, and an error if not; other ids find what they found.
  pub get-update :
      (now : ℕ) (r : SourceRow) (k : Text)
      → find by_id s.id st ≡ some r
      → get table k (update table now s st) ≡ (
          if s.id == k
          then (do
            t ← make_source (record (written s) { created_at = r.created_at; updated_at = now })
            ok (some t))
          else get table k st)
  unfolding update get
  get-update now r k h =
      let same : r.id ≡ s.id = find-cell by_id s.id st r h in
      let r' = overwrite now s r in
      let kept : r'.id ≡ r.id = unfold overwrite in refl in
      rw (h, update_row)
        (ap (domain_of table)
            (find-update by_id k r r' st (ap (λ (i : Text). find by_id i st) same ∙ h) kept)
          ∙ domain_of-if (r.id == k) r' (find by_id k st)
          ∙ ap
              (λ (o : Outcome Exn TvListSource).
                if r.id == k then (do t ← o; ok (some t)) else domain_of table (find by_id k st))
              (to_domain-overwrite now s r)
          ∙ ap
              (λ (i : Text).
                if i == k
                then (do
                  t ←
                      make_source
                        (record (written s) { id = i; created_at = r.created_at; updated_at = now })
                  ok (some t))
                else domain_of table (find by_id k st))
              same)

module _ (table : Table SourceRow SourceColumn source_cell) (st : table.Store) where
  open table use {Store, find, find-cell, find-update, find-delete, insert-fresh}

  -- A deleted id finds nothing, other ids what they found; to delete an unknown id changes nothing.
  pub get-delete :
      (id k : Text)
      → get table k (delete table id st) ≡ (if id == k then ok none else get table k st)
  unfolding delete get
  get-delete id k = go (find by_id id st) refl
    where
      split :
          (b : Bool)
          → domain_of table (if b then none else find by_id k st)
            ≡ (if b then ok none else domain_of table (find by_id k st))
      split true = refl
      split false = refl

      go :
          (o : Option SourceRow)
          → find by_id id st ≡ o
          → domain_of table (find by_id k (delete_row table st o))
            ≡ (if id == k then ok none else domain_of table (find by_id k st))
      go none e = elim (Bool-cases (id == k)) [
        | inl q ↦ rw (q, sym ((eq_iff id k).0 q)) (ap (domain_of table) e)
        | inr q ↦ rw q refl
      ]
      go (some r) e =
          let same : r.id ≡ id = find-cell by_id id st r e in
          ap (domain_of table)
            (find-delete by_id k r st (ap (λ (i : Text). find by_id i st) same ∙ e))
          ∙ ap (λ (i : Text). domain_of table (if i == k then none else find by_id k st)) same
          ∙ split (id == k)
