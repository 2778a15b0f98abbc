-- ===== src/Core/Cache/Flight.antt =====
-- `TTLCache.get_or_set` by many tasks at once, for one key: `asyncio.Lock` lets one task at a time
-- between the second read and the write. A step is what happens between two awaits of one task.
use mini_agent_go.Prelude.{
  ℕ, ◌+◌, ◌≤◌, ◌<◌, ◌≡◌, ◌≢◌, ◌⊎◌, inl, inr, false, Option, none, some, List, [], ◌∷◌, arith, All,
  Text, ◌==◌, eq_refl,
}
use mini_agent_go.Prelude.Dict.{lookup, lookup-insert}
use mini_agent_go.Core.Cache.{Cache, get, set}

-- The lock, with how far its holder has come.
pub data Lock : Type 0 where
  free checking running : Lock

pub record Flight (A : Type 0) : Type 0 where
  pub now : ℕ
  pub store : Cache A
  pub lock : Lock
  -- how many factories have returned a value, and the values that callers were given
  pub loads : ℕ
  pub returned : List A

module _ {A : Type 0} (k : Text) (ttl : ℕ) where
  pub data Step (s : Flight A) : Flight A → Type 0 where
    tick : (n : ℕ) → Step s (record s { now = s.now + n })
    -- the read outside the lock finds a value
    fast :
        (v : A)
        → (get s.now k s.store).0 ≡ some v
        → Step s (record s { store = (get s.now k s.store).1; returned = v ∷ s.returned })
    -- the read outside the lock finds nothing, and the task goes to wait
    slow : (get s.now k s.store).0 ≡ none → Step s (record s { store = (get s.now k s.store).1 })
    acquire : s.lock ≡ free → Step s (record s { lock = checking })
    -- the second read finds what the previous holder has stored
    again :
        (v : A)
        → s.lock ≡ checking
        → (get s.now k s.store).0 ≡ some v
        → Step s
            (record s { lock = free; store = (get s.now k s.store).1; returned = v ∷ s.returned })
    load :
        s.lock ≡ checking
        → (get s.now k s.store).0 ≡ none
        → Step s (record s { lock = running; store = (get s.now k s.store).1 })
    finish :
        (v : A)
        → s.lock ≡ running
        → Step s (record s {
          lock = free;
          store = set s.now k (some v) ttl s.store;
          loads = s.loads + 1;
          returned = v ∷ s.returned;
        })
    -- the factory raises
    fail : s.lock ≡ running → Step s (record s { lock = free })
    -- tasks that use the cache for another key
    other :
        (j : Text) (v : Option A) (t : ℕ)
        → (j == k) ≡ false
        → Step s (record s { store = set s.now j v t s.store })

  pub data Reach (s : Flight A) : Flight A → Type 0 where
    here : Reach s s
    next : {t u : Flight A} → Reach s t → Step t u → Reach s u

  -- One value is loaded; it is stored until `e`, and it is all that callers were given.
  record IsLoaded (v : A) (e : ℕ) (s : Flight A) : Type 0 where
    once : s.loads ≡ 1
    idle : s.lock ≢ running
    same : All (λ a. a ≡ v) s.returned
    stored : lookup k s.store ≡ some (record { value = some v; expire_at = e })

  record IsFresh (s : Flight A) : Type 0 where
    nothing : s.loads ≡ 0
    quiet : s.returned ≡ []
    absent : lookup k s.store ≡ none

  abbrev Good : ℕ → Flight A → Type 0
  Good start s = IsFresh s ⊎ ((v : A) × (e : ℕ) × IsLoaded v e s × (start + ttl ≤ e))

  get-fresh : (now : ℕ) (c : Cache A) → lookup k c ≡ none → get now k c ≡ (none, c)
  unfolding get
  get-fresh now c h = ground arith

  get-live :
      (now e : ℕ) (v : A) (c : Cache A)
      → lookup k c ≡ some (record { value = some v; expire_at = e })
      → now < e
      → get now k c ≡ (some v, c)
  unfolding get
  get-live now e v c h l = ground arith

  finish-IsLoaded :
      (v : A) (s : Flight A)
      → IsFresh s
      → IsLoaded v (s.now + ttl) (record s {
        lock = free;
        store = set s.now k (some v) ttl s.store;
        loads = s.loads + 1;
        returned = v ∷ s.returned;
      })
  unfolding set
  finish-IsLoaded v s f = ground (
    arith,
    lookup-insert k k (record { value = some v; expire_at = s.now + ttl }) s.store,
    eq_refl k,
  )

  Step-IsFresh : (start : ℕ) {s t : Flight A} → Step s t → start ≤ s.now → IsFresh s → Good start t
  unfolding set
  Step-IsFresh start (tick n) a f = inl (ground arith)
  Step-IsFresh start {s} (fast v g) a f = absurd (ground (arith, get-fresh s.now s.store))
  Step-IsFresh start {s} (slow g) a f = inl (ground (arith, get-fresh s.now s.store))
  Step-IsFresh start (acquire l) a f = inl (ground arith)
  Step-IsFresh start {s} (again v l g) a f = absurd (ground (arith, get-fresh s.now s.store))
  Step-IsFresh start {s} (load l g) a f = inl (ground (arith, get-fresh s.now s.store))
  Step-IsFresh start {s} (finish v l) a f = inr (v, s.now + ttl, finish-IsLoaded v s f, omega arith)
  Step-IsFresh start (fail l) a f = inl (ground arith)
  Step-IsFresh start {s} (other j v n ne) a f =
      inl (ground (arith, lookup-insert j k (record { value = v; expire_at = s.now + n }) s.store))

  Step-IsLoaded :
      (v : A) (e : ℕ) {s t : Flight A} → Step s t → s.now < e → IsLoaded v e s → IsLoaded v e t
  unfolding set
  Step-IsLoaded v e (tick n) b l = ground arith
  Step-IsLoaded v e {s} (fast w g) b l = ground (arith, get-live s.now e v s.store l.stored b)
  Step-IsLoaded v e {s} (slow g) b l = ground (arith, get-live s.now e v s.store l.stored b)
  Step-IsLoaded v e (acquire q) b l = ground arith
  Step-IsLoaded v e {s} (again w q g) b l = ground (arith, get-live s.now e v s.store l.stored b)
  Step-IsLoaded v e {s} (load q g) b l = ground (arith, get-live s.now e v s.store l.stored b)
  Step-IsLoaded v e (finish w q) b l = absurd (l.idle q)
  Step-IsLoaded v e (fail q) b l = absurd (l.idle q)
  Step-IsLoaded v e {s} (other j w n ne) b l =
      ground (arith, lookup-insert j k (record { value = w; expire_at = s.now + n }) s.store)

  Step-now : {s t : Flight A} → Step s t → s.now ≤ t.now
  Step-now (tick n) = omega arith
  Step-now _ = omega arith

  abbrev Once : ℕ → Flight A → Type 0
  Once start s = (start ≤ s.now) × (s.now < start + ttl → Good start s)

  Good-step :
      (start : ℕ) {s t : Flight A}
      → Step s t
      → start ≤ s.now
      → s.now < start + ttl
      → Good start s
      → Good start t
  Good-step start st a b (inl f) = Step-IsFresh start st a f
  Good-step start st a b (inr (v, e, l, m)) = inr (v, e, Step-IsLoaded v e st (omega arith) l, m)

  Reach-Once : {s t : Flight A} → Reach s t → IsFresh s → Once s.now t
  Reach-Once here f = (omega arith, λ h. inl f)
  Reach-Once {s} (next {t} r st) f =
      let (a, h) = Reach-Once r f in
      let m = Step-now st in
      (omega arith, λ b. Good-step s.now st a (omega arith) (h (omega arith)))

  -- Whatever the interleaving of the callers of one key, from a store without that key and before
  -- the time to live is up, at most one factory has returned a value, and all callers that have
  -- returned were given one and the same value.
  pub single_flight :
      {s t : Flight A}
      → Reach s t
      → lookup k s.store ≡ none
      → s.loads ≡ 0
      → s.returned ≡ []
      → t.now < s.now + ttl
      → (t.loads ≤ 1) × ((t.returned ≡ []) ⊎ ((v : A) × All (λ a. a ≡ v) t.returned))
  single_flight {s} r absent nothing quiet b =
      conclude ((Reach-Once r (record { nothing = nothing; quiet = quiet; absent = absent })).1 b)
    where
      conclude :
          {t : Flight A}
          → Good s.now t
          → (t.loads ≤ 1) × ((t.returned ≡ []) ⊎ ((v : A) × All (λ a. a ≡ v) t.returned))
      conclude (inl f) = (omega (arith, f.nothing), inl f.quiet)
      conclude (inr (v, e, l, m)) = (omega (arith, l.once), inr (v, l.same))
