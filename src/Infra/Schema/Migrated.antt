-- ===== src/Infra/Schema/Migrated.antt =====
-- The migration against any database.
use mini_agent_go.Prelude.{
  ◌≡◌, refl, sym, ap, ◌∙◌, inl, inr, true, Option, none, some, List, [], ◌∷◌, ◌++◌, arith,
  Option-cases, is_some, all, All, Text, All-implied, ◌==◌, ok, >>=-eq-ok,
}
use mini_agent_go.Prelude.{ok-injective}
use mini_agent_go.Infra.Schema.{
  Op, Ddl, SqlTable, SqlIndex, undo, table_after, index_after, run_all,
}
use mini_agent_go.Infra.Schema.Revision.{upgrade, downgrade}
use mini_agent_go.Infra.Schema.Metadata.{
  source_row, program_row, job_row, user_row, source_health_row, indexes_of, index_name, primary_of,
  Model, table_of, all_indexes, metadata,
}

-- the calls that take back those of `os`, last first
undone_first : Option Op → List Op → List Op
undone_first none us = us
undone_first (some u) us = us ++ u ∷ []

undone : List Op → List Op
unfolding undone_first
undone [] = []
undone (o ∷ os) = undone_first (undo o) (undone os)

-- what `table` and `index` find after all of `os`
abbrev pub table_after_all : List Op → Text → Option SqlTable → Option SqlTable
table_after_all [] n t = t
table_after_all (o ∷ os) n t = table_after_all os n (table_after o n t)

abbrev pub index_after_all : List Op → Text → Option SqlIndex → Option SqlIndex
index_after_all [] n i = i
index_after_all (o ∷ os) n i = index_after_all os n (index_after o n i)

-- The calls of `os` only make tables and indexes.
abbrev pub AreMaking : List Op → Type 0
AreMaking os = all (λ o. is_some (undo o)) os ≡ true

making_first :
    (o : Op) (os : List Op) → AreMaking (o ∷ os) → (is_some (undo o) ≡ true) × AreMaking os
making_first o os a = ground arith

upgrade-AreMaking : AreMaking upgrade
unfolding upgrade undo
upgrade-AreMaking = refl

undone-upgrade : undone upgrade ≡ downgrade
unfolding undone undone_first undo upgrade downgrade
undone-upgrade = refl

-- The migration makes the table and the indexes of a model, whatever there was before.
abbrev Makes : Model → Type 0
Makes m =
    ((t : Option SqlTable) → table_after_all upgrade m.tablename t ≡ some (table_of m))
    × All (λ i. (x : Option SqlIndex) → index_after_all upgrade i.0 x ≡ some i.1) (all_indexes m)

upgrade-Makes : All Makes metadata
unfolding upgrade table_after index_after metadata table_of all_indexes ◌==◌ source_row program_row
    job_row user_row source_health_row indexes_of index_name primary_of
upgrade-Makes = (
  ((λ t. refl), ((λ x. refl), ((λ x. refl), tt))),
  (
    ((λ t. refl), ((λ x. refl), ((λ x. refl), ((λ x. refl), ((λ x. refl), ((λ x. refl), tt)))))),
    (
      ((λ t. refl), ((λ x. refl), ((λ x. refl), ((λ x. refl), tt)))),
      (((λ t. refl), ((λ x. refl), tt)), (((λ t. refl), tt), tt)),
    ),
  ),
)

module _ (db : Ddl) where
  run_all-append :
      (os ps : List Op) (w w' : db.World)
      → run_all db os w ≡ ok w'
      → run_all db (os ++ ps) w ≡ run_all db ps w'
  unfolding run_all
  run_all-append [] ps w w' h = rw (ok-injective w w' h) refl
  run_all-append (o ∷ os) ps w w' h =
      let (w1, first, rest) = >>=-eq-ok (db.run o w) _ h in
      rw first (run_all-append os ps w1 w' rest)

  run_all-undone :
      (os : List Op) (w w' : db.World)
      → AreMaking os
      → run_all db os w ≡ ok w'
      → run_all db (undone os) w' ≡ ok w
  unfolding run_all undone undone_first
  run_all-undone [] w w' a h = sym h
  run_all-undone (o ∷ os) w w' a h =
      let (w1, first, rest) = >>=-eq-ok (db.run o w) _ h in
      let (making, all_making) = making_first o os a in
      elim (Option-cases (undo o)) [
        | inl e ↦ ground (arith, making, e)
        | inr (u, e) ↦ rw e (
            run_all-append (undone os) (u ∷ []) w' w1 (run_all-undone os w1 w' all_making rest)
            ∙ (rw (db.run-undo o u w w1 first e) refl))
      ]

  table-run_all :
      (os : List Op) (w w' : db.World) (n : Text)
      → run_all db os w ≡ ok w'
      → db.table n w' ≡ table_after_all os n (db.table n w)
  unfolding run_all
  table-run_all [] w w' n h = ap (db.table n) (sym (ok-injective w w' h))
  table-run_all (o ∷ os) w w' n h =
      let (w1, first, rest) = >>=-eq-ok (db.run o w) _ h in
      table-run_all os w1 w' n rest ∙ ap (table_after_all os n) (db.table-run o w w1 n first)

  index-run_all :
      (os : List Op) (w w' : db.World) (n : Text)
      → AreMaking os
      → run_all db os w ≡ ok w'
      → db.index n w' ≡ index_after_all os n (db.index n w)
  unfolding run_all
  index-run_all [] w w' n a h = ap (db.index n) (sym (ok-injective w w' h))
  index-run_all (o ∷ os) w w' n a h =
      let (w1, first, rest) = >>=-eq-ok (db.run o w) _ h in
      let (making, all_making) = making_first o os a in
      index-run_all os w1 w' n all_making rest
      ∙ ap (index_after_all os n) (db.index-run o w w1 n making first)

  -- A model has its table and its indexes in the database.
  abbrev pub IsMade : db.World → Model → Type 0
  IsMade w m =
      (db.table m.tablename w ≡ some (table_of m))
      × All (λ i. db.index i.0 w ≡ some i.1) (all_indexes m)

  -- Where the migration succeeds, every model finds its table, with its columns and primary key,
  -- and all its indexes, the unique ones among them; and the downgrade brings the schema back to
  -- what it was.
  pub upgrade-IsMade :
      (w w' : db.World)
      → run_all db upgrade w ≡ ok w'
      → All (IsMade w') metadata × (run_all db downgrade w' ≡ ok w)
  upgrade-IsMade w w' h = (
    All-implied
        (λ m k. (
          table-run_all upgrade w w' m.tablename h ∙ k.0 (db.table m.tablename w),
          All-implied
              (λ i x. index-run_all upgrade w w' i.0 upgrade-AreMaking h ∙ x (db.index i.0 w))
              (all_indexes m) k.1,
        ))
        metadata upgrade-Makes,
    ap (λ os. run_all db os w') (sym undone-upgrade)
        ∙ run_all-undone upgrade w w' upgrade-AreMaking h,
  )
