-- ===== src/Infra/Table/Log.antt =====
-- A table that meets the laws: a log of writes, the newest first, where a row that was deleted stands
-- with the mark `false`, and beside it the rows that are there.
use mini_agent_go.Prelude.{
  ◌+◌, ◌≡◌, refl, Bool, true, false, ◌||◌, Option, none, some, List, [], ◌∷◌, arith, if◌then◌else◌,
  is_some, All, Text, empty_text, ◌==◌, eq_iff, Outcome, ok, err, filter, length, all, ap, not,
  count, suc, map,
}
use mini_agent_go.Core.Exceptions.{Exn, raise, integrity}
use mini_agent_go.Infra.Table.{Table}

pub record Log (Row : Type 0) : Type 0 where
  pub writes : List (Bool × Row)
  pub held : List Row
  -- what was committed, with its rows
  pub old_writes : List (Bool × Row)
  pub old_held : List Row

abbrev pub empty_log : {Row : Type 0} → Log Row
empty_log = record { writes = []; held = []; old_writes = []; old_held = [] }

-- the log in which these rows were inserted, the last first, and committed
abbrev pub log_of : {Row : Type 0} → List Row → Log Row
log_of rs =
    let ws = map (λ r. (true, r)) rs in
    record { writes = ws; held = rs; old_writes = ws; old_held = rs }

module _ {Row Column : Type 0} (cell : Column → Row → Text) where
  unfoldable pub find_in : Column → Text → List (Bool × Row) → Option Row
  find_in c v [] = none
  find_in c v ((alive, r) ∷ l) =
      let rest = find_in c v l in if cell c r == v then (if alive then some r else none) else rest

  unfoldable pub taken : List Column → Row → List (Bool × Row) → Bool
  unfolding find_in
  taken [] r l = false
  taken (c ∷ cs) r l = is_some (find_in c (cell c r) l) || taken cs r l

  unfoldable pub insert_in : List Column → Row → Log Row → Outcome Exn (Log Row)
  unfolding taken
  insert_in cs r l =
      if taken cs r l.writes
      then raise integrity empty_text
      else ok (record l { writes = (true, r) ∷ l.writes; held = r ∷ l.held })

  -- two rows with the same unique values
  same : List Column → Row → Row → Bool
  same cs q r = all (λ c. cell c q == cell c r) cs

  unfoldable pub replace : List Column → Row → Row → List Row → List Row
  unfolding same
  replace cs r r' [] = []
  replace cs r r' (q ∷ qs) = (if same cs q r then r' else q) ∷ replace cs r r' qs

  unfoldable pub remove : List Column → Row → List Row → List Row
  unfolding same
  remove cs r qs = filter (λ q. not (same cs q r)) qs

  pub length-replace :
      (cs : List Column) (r r' : Row) (qs : List Row) → length (replace cs r r' qs) ≡ length qs
  unfolding replace
  length-replace cs r r' [] = refl
  length-replace cs r r' (q ∷ qs) = ap suc (length-replace cs r r' qs)

  pub held-insert_in :
      (cs : List Column) (r : Row) (l l' : Log Row)
      → insert_in cs r l ≡ ok l'
      → l'.held ≡ r ∷ l.held
  unfolding insert_in
  held-insert_in cs r l l' h = ground arith

  pub old-insert_in :
      (cs : List Column) (r : Row) (l l' : Log Row)
      → insert_in cs r l ≡ ok l'
      → (record l' { writes = l'.old_writes; held = l'.old_held })
        ≡ record l { writes = l.old_writes; held = l.old_held }
  unfolding insert_in
  old-insert_in cs r l l' h = ground arith

  pub find_in-cell :
      (c : Column) (v : Text) (l : List (Bool × Row)) (r : Row)
      → find_in c v l ≡ some r
      → cell c r ≡ v
  unfolding find_in
  find_in-cell c v [] r h = cc
  find_in-cell c v ((alive, q) ∷ l) r h = ground (arith, find_in-cell c v l r, eq_iff (cell c q) v)

  not_taken :
      (cs : List Column) (r : Row) (l : List (Bool × Row))
      → ((c : Column) → find_in c (cell c r) l ≡ none)
      → taken cs r l ≡ false
  unfolding taken
  not_taken [] r l h = refl
  not_taken (c ∷ cs) r l h = ground (arith, h c, not_taken cs r l h)

  taken-All :
      (cs : List Column) (r : Row) (l : List (Bool × Row))
      → All (λ c. (old : Row) → find_in c (cell c r) l ≡ some old → taken cs r l ≡ true) cs
  unfolding taken
  taken-All [] r l = tt
  taken-All (c ∷ cs) r l = (λ old h. ground arith, All-taken cs (taken-All cs r l))
    where
      All-taken :
          (ds : List Column)
          → All (λ d. (old : Row) → find_in d (cell d r) l ≡ some old → taken cs r l ≡ true) ds
          → All
              (λ d. (old : Row) → find_in d (cell d r) l ≡ some old → taken (c ∷ cs) r l ≡ true)
              ds
      All-taken [] h = tt
      All-taken (d ∷ ds) h = (λ old e. ground (arith, h.0 old e), All-taken ds h.1)

  pub insert_in-fresh :
      (cs : List Column) (r : Row) (l : Log Row)
      → ((c : Column) → find_in c (cell c r) l.writes ≡ none)
      → (l' : Log Row) × (insert_in cs r l ≡ ok l')
        × (length l'.held ≡ length l.held + 1)
        × ((c : Column) (v : Text)
            → find_in c v l'.writes ≡ (if cell c r == v then some r else find_in c v l.writes))
  unfolding find_in insert_in
  insert_in-fresh cs r l h = (
    record l { writes = (true, r) ∷ l.writes; held = r ∷ l.held },
    rw (not_taken cs r l.writes h),
    omega arith,
    λ c v. refl,
  )

  pub insert_in-taken :
      (cs : List Column)
      → ((P : Column → Type 0) → All P cs → (c : Column) → P c)
      → (c : Column) (r old : Row) (l : Log Row) → find_in c (cell c r) l.writes ≡ some old
      → (e : Exn) × (insert_in cs r l ≡ err e) × (e.cls ≡ integrity)
  unfolding insert_in
  insert_in-taken cs every c r old l h =
      let t : taken cs r l.writes ≡ true =
        every (λ d. (q : Row) → find_in d (cell d r) l.writes ≡ some q → taken cs r l.writes ≡ true)
          (taken-All cs r l.writes) c old h in
      (record { cls = integrity; message = empty_text }, rw t, refl)

  pub find_in-update :
      (c : Column) (v : Text) (r r' : Row) (l : Log Row)
      → find_in c (cell c r) l.writes ≡ some r
      → cell c r' ≡ cell c r
      → find_in c v ((true, r') ∷ l.writes)
        ≡ (if cell c r == v then some r' else find_in c v l.writes)
  unfolding find_in
  find_in-update c v r r' l h e = rw e refl

  pub find_in-delete :
      (c : Column) (v : Text) (r : Row) (l : Log Row)
      → find_in c (cell c r) l.writes ≡ some r
      → find_in c v ((false, r) ∷ l.writes) ≡ (if cell c r == v then none else find_in c v l.writes)
  unfolding find_in
  find_in-delete c v r l h = refl

  pub find_in-nil : (c : Column) (v : Text) → find_in c v [] ≡ none
  unfolding find_in
  find_in-nil c v = refl

  -- `columns` lists all the columns.
  abbrev pub log_table :
      (columns : List Column)
      → ((P : Column → Type 0) → All P columns → (c : Column) → P c)
      → Table Row Column cell
  log_table columns every = record {
    Store = Log Row;
    find = λ c v l. find_in c v l.writes;
    rows = λ l. l.held;
    size = λ l. length l.held;
    insert = insert_in columns;
    update =
        λ r r' l. record l { writes = (true, r') ∷ l.writes; held = replace columns r r' l.held };
    delete = λ r l. record l { writes = (false, r) ∷ l.writes; held = remove columns r l.held };
    clear = λ l. record l { writes = []; held = [] };
    rolled_back = λ l. record l { writes = l.old_writes; held = l.old_held };
    find-cell = λ c v l r h. find_in-cell c v l.writes r h;
    insert-fresh = λ r l h. insert_in-fresh columns r l h;
    insert-taken = λ c r old l h. insert_in-taken columns every c r old l h;
    find-update = λ c v r r' l h e. find_in-update c v r r' l h e;
    size-update = λ r r' l. length-replace columns r r' l.held;
    find-delete = λ c v r l h. find_in-delete c v r l h;
    size-rows = λ l. refl;
    rows-insert = λ r l l' p h. ap (count p) (held-insert_in columns r l l' h);
    rolled_back-insert = λ r l l' h. old-insert_in columns r l l' h;
    rolled_back-update = λ r r' l. refl;
    rolled_back_idem = λ l. refl;
    find-clear = λ c v l. find_in-nil c v;
    rows-clear = λ l. refl;
  }
