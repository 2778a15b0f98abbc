-- ===== src/Infra/Table/Bulk.antt =====
-- `session.add_all` and the flush that follows, on a table with its laws.
use mini_agent_go.Prelude.{
  ◌+◌, ◌≡◌, refl, Bool, false, none, List, [], ◌∷◌, ◌++◌, arith, length, All, All-append, Text,
  count, All-both, ◌==◌, Outcome, ok, ◌>>=◌,
}
use mini_agent_go.Core.Exceptions.{Exn}
use mini_agent_go.Infra.Table.{Table}

module _ {Row Column : Type 0} (cell : Column → Row → Text) where
  -- two rows without a unique value in common
  abbrev pub Apart : Row → Row → Type 0
  Apart r q = (c : Column) → (cell c r == cell c q) ≡ false

  abbrev pub AreApart : List Row → Type 0
  AreApart [] = Unit
  AreApart (r ∷ rs) = All (Apart r) rs × AreApart rs

  pub append-AreApart :
      (xs ys : List Row)
      → AreApart xs
      → AreApart ys
      → All (λ x. All (Apart x) ys) xs
      → AreApart (xs ++ ys)
  append-AreApart [] ys hx hy hc = hy
  append-AreApart (x ∷ xs) ys hx hy hc =
      (All-append (Apart x) xs ys hx.0 hc.0, append-AreApart xs ys hx.1 hy hc.1)

module _ {Row Column : Type 0} {cell : Column → Row → Text} (table : Table Row Column cell) where
  open table use {Store, find, rows, size, insert, insert-fresh, rows-insert}

  unfoldable pub insert_all : List Row → Store → Outcome Exn Store
  insert_all [] s = ok s
  insert_all (r ∷ rs) s = do s' ← insert r s; insert_all rs s'

  abbrev pub IsFree : Store → Row → Type 0
  IsFree s r = (c : Column) → find c (cell c r) s ≡ none

  -- the store after all rows were inserted
  pub record AreInserted (rs : List Row) (s s' : Store) : Type 0 where
    pub inserted : insert_all rs s ≡ ok s'
    pub grown : size s' ≡ size s + length rs
    pub counted : (p : Row → Bool) → count p (rows s') ≡ count p rs + count p (rows s)

  pub insert_all-AreInserted :
      (rs : List Row) (s : Store)
      → All (IsFree s) rs
      → AreApart cell rs
      → (s' : Store) × AreInserted rs s s'
  unfolding insert_all
  insert_all-AreInserted [] s f a =
      (s, record { inserted = refl; grown = omega arith; counted = λ p. omega arith })
  insert_all-AreInserted (r ∷ rs) s f a =
      let (s1, e, n, g) = insert-fresh r s f.0 in
      let free : All (IsFree s1) rs =
        All-both {R = IsFree s1}
          (λ q (k : Apart cell r q) (h : IsFree s q) c. rw (g c (cell c q), k c) (h c)) rs a.0
          f.1 in
      let (s', done) = insert_all-AreInserted rs s1 free a.1 in
      (
        s',
        record {
          inserted = rw e done.inserted;
          grown = omega (arith, done.grown, n);
          counted = λ p. omega (arith, done.counted p, rows-insert r s s1 p e);
        },
      )
