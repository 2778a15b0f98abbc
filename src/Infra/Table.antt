-- ===== src/Infra/Table.antt =====
-- What the repositories use of a SQLAlchemy session, for one table. `Column` are its columns with a
-- unique value for each row, the primary key among them, and `cell` reads them.
pub mod Log
pub mod Bulk
use mini_agent_go.Prelude.{
  ℕ, zero, suc, ◌+◌, ◌-◌, ◌*◌, ◌/◌, ◌%◌, ◌≤◌, ◌<◌, ◌≡◌, refl, sym, ap, ◌∙◌, ◌≢◌, ◌↔◌, ◌⊎◌, inl, inr,
  Bool, true, false, not, ◌&&◌, ◌||◌, Option, none, some, List, [], ◌∷◌, ◌++◌, map, arith, ltb, leb,
  eqb, if◌then◌else◌, eqb_iff, Bool-cases, Option-cases, is_some, get_or, length, take, filter, all,
  find, All, length-append, length-filter, length-take, length-map, All-append, Text, codes,
  empty_text, is_empty, or_text, some_text, all_text, ◌==◌, decimal, eq_iff, eq_refl, eq-false,
  eq_sym, Outcome, ok, err, ◌>>=◌, >>=-eq-ok, count,
}
use mini_agent_go.Core.Exceptions.{Exn, ErrorClass, integrity}

pub record Table (Row Column : Type 0) (cell : Column → Row → Text) : Type 1 where
  pub Store : Type 0
  -- `session.get`, or a `select` by a unique column with `scalar_one_or_none`
  pub find : Column → Text → Store → Option Row
  -- the rows that a `select` goes through, and `func.count`
  pub rows : Store → List Row
  pub size : Store → ℕ
  -- `session.add` and the flush that follows
  pub insert : Row → Store → Outcome Exn Store
  -- the flush after a row's attributes were assigned
  pub update : Row → Row → Store → Store
  pub delete : Row → Store → Store
  -- `DELETE` without a condition
  pub clear : Store → Store
  -- what the session sees after its transaction was rolled back: what was committed before
  pub rolled_back : Store → Store
  pub find-cell : (c : Column) (v : Text) (s : Store) (r : Row) → find c v s ≡ some r → cell c r ≡ v
  pub insert-fresh :
      (r : Row) (s : Store)
      → ((c : Column) → find c (cell c r) s ≡ none)
      → (s' : Store) × (insert r s ≡ ok s')
        × (size s' ≡ size s + 1)
        × ((c : Column) (v : Text) → find c v s' ≡ (if cell c r == v then some r else find c v s))
  pub insert-taken :
      (c : Column) (r old : Row) (s : Store)
      → find c (cell c r) s ≡ some old
      → (e : Exn) × (insert r s ≡ err e) × (e.cls ≡ integrity)
  pub find-update :
      (c : Column) (v : Text) (r r' : Row) (s : Store)
      → find c (cell c r) s ≡ some r
      → cell c r' ≡ cell c r
      → find c v (update r r' s) ≡ (if cell c r == v then some r' else find c v s)
  pub size-update : (r r' : Row) (s : Store) → size (update r r' s) ≡ size s
  pub find-delete :
      (c : Column) (v : Text) (r : Row) (s : Store)
      → find c (cell c r) s ≡ some r
      → find c v (delete r s) ≡ (if cell c r == v then none else find c v s)
  pub size-rows : (s : Store) → size s ≡ length (rows s)
  -- a new row is one more in the `select`, wherever it stands
  pub rows-insert :
      (r : Row) (s s' : Store) (p : Row → Bool)
      → insert r s ≡ ok s'
      → count p (rows s') ≡ count p (r ∷ rows s)
  -- what was committed is not touched by what the transaction does
  pub rolled_back-insert :
      (r : Row) (s s' : Store) → insert r s ≡ ok s' → rolled_back s' ≡ rolled_back s
  pub rolled_back-update : (r r' : Row) (s : Store) → rolled_back (update r r' s) ≡ rolled_back s
  pub rolled_back_idem : (s : Store) → rolled_back (rolled_back s) ≡ rolled_back s
  pub find-clear : (c : Column) (v : Text) (s : Store) → find c v (clear s) ≡ none
  pub rows-clear : (s : Store) → rows (clear s) ≡ []
