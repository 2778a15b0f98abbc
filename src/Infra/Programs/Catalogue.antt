-- ===== src/Infra/Programs/Catalogue.antt =====
-- What the program repository promises, without rows: a program for some identity keys. `upsert`
-- implements it.
use mini_agent_go.Prelude.{
  ℕ, ◌+◌, ◌≡◌, refl, ap, ◌∙◌, inl, inr, Option, none, some, List, [], ◌∷◌, ◌++◌, arith,
  if◌then◌else◌, Option-cases, Text, some_text, ◌==◌, Outcome, ok, err, fun_ext,
}
use mini_agent_go.Prelude.Sorted.{sorted_set}
use mini_agent_go.Core.Exceptions.{Exn, integrity}
use mini_agent_go.Domain.Models.{Json, TvProgram}
use mini_agent_go.Infra.Table.{Table}
use mini_agent_go.Infra.Programs.{
  ProgramRow, ProgramColumn, by_id, by_identity, program_cell, to_domain, overwrite,
  find_by_identity, upsert, domain_of, upsert_row,
}
use mini_agent_go.Infra.Programs.Mapping.{load_tags-dump_tag}
use mini_agent_go.Infra.Programs.Upsert.{upsert-known, upsert-new, upsert-id_taken}

abbrev pub Catalogue : Type 0
Catalogue = Text → Option TvProgram

-- the stored program `old` after `p` came in at the time `now`
unfoldable pub revised : ℕ → TvProgram → TvProgram → TvProgram
revised now p old = record old {
  title = p.title;
  description = p.description;
  slot = record old.slot { start = p.slot.start; finish = p.slot.finish };
  tags = p.tags;
  source_ids = sorted_set (old.source_ids ++ p.source_ids);
  version = old.version + 1;
  updated_at = now;
}

-- what is under the identity key of `p`, after `p` came in
unfoldable pub entry_of : ℕ → TvProgram → Option TvProgram → TvProgram
unfolding revised
entry_of now p none = record p { id = some (some_text p.id) }
entry_of now p (some old) = revised now p old

unfoldable pub enter_program : ℕ → TvProgram → Catalogue → Catalogue
unfolding entry_of
enter_program now p c k =
    if p.identity_key == k then some (entry_of now p (c p.identity_key)) else c k

unfoldable pub enter_all : ℕ → List TvProgram → Catalogue → Catalogue
unfolding enter_program
enter_all now [] c = c
enter_all now (p ∷ ps) c = enter_all now ps (enter_program now p c)

-- A step from `c` to `c'` for `p`, by its outcome: the program is entered and returned, or it is
-- new, refused by the database, and all is as in `back`, which was committed.
unfoldable pub IsEntered :
    ℕ → TvProgram → Catalogue → Catalogue → Outcome Exn TvProgram → Catalogue → Type 0
IsEntered now p c back (ok q) c' =
    (q ≡ entry_of now p (c p.identity_key)) × (c' ≡ enter_program now p c)
IsEntered now p c back (err e) c' = (e.cls ≡ integrity) × (c p.identity_key ≡ none) × (c' ≡ back)

module _ (repr : Json → Text) (table : Table ProgramRow ProgramColumn program_cell) where
  open table use {Store, find, update, find-cell, find-update}

  -- a store as its catalogue
  abbrev pub view : Store → Catalogue
  view st k = find_by_identity repr table k st

  revised-overwrite :
      (now : ℕ) (p : TvProgram) (r : ProgramRow)
      → to_domain repr (overwrite now p r) ≡ revised now p (to_domain repr r)
  unfolding to_domain overwrite revised
  revised-overwrite now p r = rw (load_tags-dump_tag repr p.tags) refl

  upsert-returned :
      (now : ℕ) (p : TvProgram) (st : Store) (r : ProgramRow)
      → find by_identity p.identity_key st ≡ some r
      → (q : TvProgram) → (upsert repr table now p st).0 ≡ ok q
      → to_domain repr (overwrite now p r) ≡ q
  unfolding upsert upsert_row
  upsert-returned now p st r e q h = ground (arith, h, e)

  returned :
      (now : ℕ) (p : TvProgram) (c back : Catalogue) (x : Outcome Exn TvProgram × Store)
      (q : TvProgram)
      → x.0 ≡ ok q
      → q ≡ entry_of now p (c p.identity_key)
      → ((k : Text) → view x.1 k ≡ (if p.identity_key == k then some q else c k))
      → IsEntered now p c back x.0 (view x.1)
  unfolding IsEntered enter_program
  returned now p c back (r, st) q e same seen = rw e (same, fun_ext (λ k. seen k ∙ rw same refl))

  refused :
      (now : ℕ) (p : TvProgram) (st : Store) (x : Outcome Exn TvProgram × Store) (e : Exn)
      → view st p.identity_key ≡ none
      → x ≡ (err e, table.rolled_back st)
      → e.cls ≡ integrity
      → IsEntered now p (view st) (view (table.rolled_back st)) x.0 (view x.1)
  unfolding IsEntered
  refused now p st x e new h i = rw h (i, new, refl)

  upsert-IsEntered_known :
      (now : ℕ) (p : TvProgram) (st : Store) (r : ProgramRow)
      → find by_identity p.identity_key st ≡ some r
      → let x = upsert repr table now p st in
        IsEntered now p (view st) (view (table.rolled_back st)) x.0 (view x.1)
  unfolding find_by_identity entry_of
  upsert-IsEntered_known now p st r e =
      let ((q, result, updated, seen), grown) = upsert-known repr table now p st r e in
      returned now p (view st) (view (table.rolled_back st)) (upsert repr table now p st) q result
        (fresh q result) seen
    where
      fresh :
          (q : TvProgram)
          → (upsert repr table now p st).0 ≡ ok q
          → q ≡ entry_of now p (view st p.identity_key)
      fresh q h = rw (e, ← upsert-returned now p st r e q h) (revised-overwrite now p r)

  upsert-IsEntered_new :
      (now : ℕ) (p : TvProgram) (st : Store)
      → find by_identity p.identity_key st ≡ none
      → let x = upsert repr table now p st in
        IsEntered now p (view st) (view (table.rolled_back st)) x.0 (view x.1)
  unfolding find_by_identity entry_of
  upsert-IsEntered_new now p st e =
      let new : view st p.identity_key ≡ none = ap (domain_of repr table) e in
      elim (Option-cases (find by_id (some_text p.id) st)) [
        | inl free ↦
            let (result, grown, seen) = upsert-new repr table now p st e free in
            returned now p (view st) (view (table.rolled_back st)) (upsert repr table now p st)
              (record p { id = some (some_text p.id) }) result (rw new refl) seen
        | inr (old, taken) ↦
            let (x, is_integrity, same) = upsert-id_taken repr table now p st old e taken in
            refused now p st (upsert repr table now p st) x new same is_integrity
      ]

  -- `upsert` implements the entry of a program in the catalogue of the session, or it is refused,
  -- and leaves the catalogue that was committed.
  pub upsert-IsEntered :
      (now : ℕ) (p : TvProgram) (st : Store)
      → let x = upsert repr table now p st in
        IsEntered now p (view st) (view (table.rolled_back st)) x.0 (view x.1)
  upsert-IsEntered now p st = elim (Option-cases (find by_identity p.identity_key st)) [
    | inl e ↦ upsert-IsEntered_new now p st e
    | inr (r, e) ↦ upsert-IsEntered_known now p st r e
  ]
