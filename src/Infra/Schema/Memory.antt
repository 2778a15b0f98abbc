-- ===== src/Infra/Schema/Memory.antt =====
-- A database in memory: the tables and the indexes under their names. It refuses to make what is there,
-- and to drop what is not; the indexes of a dropped table stay.
use mini_agent_go.Prelude.{fun_ext, ok-injective}
use mini_agent_go.Prelude.{
  ◌≡◌, refl, sym, ap, ◌∙◌, inl, inr, Bool, true, false, not, ◌&&◌, Option, none, some, arith,
  if◌then◌else◌, Bool-cases, is_some, Text, codes, ◌==◌, eq_iff, eq_refl, Outcome, ok,
}
use mini_agent_go.Core.Exceptions.{Exn, integrity, raise}
use mini_agent_go.Infra.Schema.{
  SqlTable, SqlIndex, Op, create_table, create_index, drop_index, drop_table, Ddl, undo,
  table_after, index_after,
}

-- `f` with `v` under the name `n`
unfoldable pub put {ℓ} : {A : Type ℓ} → Text → Option A → (Text → Option A) → Text → Option A
put n v f k = if n == k then v else f k

absent {ℓ} : {A : Type ℓ} (o : Option A) → is_some o ≡ false → o ≡ none
absent none h = refl
absent (some a) h = cc

put-put {ℓ} :
    {A : Type ℓ} (n : Text) (v : Option A) (f : Text → Option A)
    → is_some (f n) ≡ false
    → put n none (put n v f) ≡ f
unfolding put
put-put n v f h = fun_ext (λ k. elim (Bool-cases (n == k)) [
  | inl e ↦ rw e (sym (ap f (sym ((eq_iff n k).0 e)) ∙ absent (f n) h))
  | inr e ↦ rw e refl
])

pub record Memory : Type 0 where
  pub tables : Text → Option SqlTable
  pub indexes : Text → Option SqlIndex

unfoldable pub empty_memory : Memory
empty_memory = record { tables = λ n. none; indexes = λ n. none }

unfoldable pub guarded : Bool → Memory → Outcome Exn Memory
guarded b w = if b then ok w else raise integrity (codes "refused")

guarded-ok : (b : Bool) (w w' : Memory) → guarded b w ≡ ok w' → (b ≡ true) × (w ≡ w')
unfolding guarded
guarded-ok true w w' h = (refl, ok-injective w w' h)
guarded-ok false w w' h = cc

unfoldable pub run : Op → Memory → Outcome Exn Memory
unfolding guarded put
run (create_table n columns primary_key) w = guarded (not (is_some (w.tables n))) (record w {
  tables = put n (some (record { columns = columns; primary_key = primary_key })) w.tables;
})
run (create_index n table columns is_unique) w =
    guarded (not (is_some (w.indexes n)) && is_some (w.tables table)) (record w {
      indexes =
          put n (some (record { table = table; columns = columns; unique = is_unique })) w.indexes;
    })
run (drop_index n table) w =
    guarded (is_some (w.indexes n)) (record w { indexes = put n none w.indexes })
run (drop_table n) w = guarded (is_some (w.tables n)) (record w { tables = put n none w.tables })

pub table-run :
    (o : Op) (w w' : Memory) (n : Text)
    → run o w ≡ ok w'
    → w'.tables n ≡ table_after o n (w.tables n)
unfolding run table_after put
table-run (create_table m columns primary_key) w w' n h =
    ap (λ (v : Memory). v.tables n) (sym (guarded-ok _ _ w' h).1)
table-run (create_index m table columns is_unique) w w' n h =
    ap (λ (v : Memory). v.tables n) (sym (guarded-ok _ _ w' h).1)
table-run (drop_index m table) w w' n h =
    ap (λ (v : Memory). v.tables n) (sym (guarded-ok _ _ w' h).1)
table-run (drop_table m) w w' n h = ap (λ (v : Memory). v.tables n) (sym (guarded-ok _ _ w' h).1)

pub index-run :
    (o : Op) (w w' : Memory) (n : Text)
    → run o w ≡ ok w'
    → w'.indexes n ≡ index_after o n (w.indexes n)
unfolding run index_after put
index-run (create_table m columns primary_key) w w' n h =
    ap (λ (v : Memory). v.indexes n) (sym (guarded-ok _ _ w' h).1)
index-run (create_index m table columns is_unique) w w' n h =
    ap (λ (v : Memory). v.indexes n) (sym (guarded-ok _ _ w' h).1)
index-run (drop_index m table) w w' n h =
    ap (λ (v : Memory). v.indexes n) (sym (guarded-ok _ _ w' h).1)
index-run (drop_table m) w w' n h = ap (λ (v : Memory). v.indexes n) (sym (guarded-ok _ _ w' h).1)

drop-create_table :
    (m : Text) (t : SqlTable) (w : Memory)
    → is_some (w.tables m) ≡ false
    → run (drop_table m) (record w { tables = put m (some t) w.tables }) ≡ ok w
unfolding run put guarded
drop-create_table m t w h = rw (eq_refl m) (
    ap (λ (f : Text → Option SqlTable). ok (record w { tables = f }))
      (unfold put in put-put m (some t) w.tables h))

drop-create_index :
    (m table : Text) (i : SqlIndex) (w : Memory)
    → is_some (w.indexes m) ≡ false
    → run (drop_index m table) (record w { indexes = put m (some i) w.indexes }) ≡ ok w
unfolding run put guarded
drop-create_index m table i w h = rw (eq_refl m) (
    ap (λ (f : Text → Option SqlIndex). ok (record w { indexes = f }))
      (unfold put in put-put m (some i) w.indexes h))

pub run-undo : (o u : Op) (w w' : Memory) → run o w ≡ ok w' → undo o ≡ some u → run u w' ≡ ok w
unfolding run undo
run-undo (create_table m columns primary_key) u w w' h e =
    let (free, same) = guarded-ok _ _ w' h in
    let dropped : drop_table m ≡ u = cc in
    ap (λ (v : Op). run v w') (sym dropped)
    ∙ ap (run (drop_table m)) (sym same)
    ∙ drop-create_table m (record { columns = columns; primary_key = primary_key }) w (ground arith)
run-undo (create_index m table columns is_unique) u w w' h e =
    let (free, same) = guarded-ok _ _ w' h in
    let dropped : drop_index m table ≡ u = cc in
    ap (λ (v : Op). run v w') (sym dropped)
    ∙ ap (run (drop_index m table)) (sym same)
    ∙ drop-create_index m table (record { table = table; columns = columns; unique = is_unique }) w
        (ground arith)
run-undo (drop_index m table) u w w' h e = cc
run-undo (drop_table m) u w w' h e = cc

abbrev pub memory : Ddl
memory = record {
  World = Memory;
  run = run;
  table = λ n w. w.tables n;
  index = λ n w. w.indexes n;
  table-run = table-run;
  index-run = λ o w w' n making h. index-run o w w' n h;
  run-undo = run-undo;
}
