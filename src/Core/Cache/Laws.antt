-- ===== src/Core/Cache/Laws.antt =====
-- Reads after writes, expiry, and what `get_or_set` leaves behind.
use mini_agent_go.Prelude.{
  ℕ, ◌+◌, ◌≤◌, ◌<◌, ◌≡◌, refl, Option, none, some, arith, ltb, leb, if◌then◌else◌, Text, ◌==◌,
  eq_iff, eq_refl, Outcome, ok, err,
}
use mini_agent_go.Prelude.Dict.{lookup, lookup-insert, lookup-erase}
use mini_agent_go.Core.Exceptions.{Exn}
use mini_agent_go.Core.Cache.{
  Entry, Cache, get, set, invalidate, State, Load, Clock, get_or_set, fill, recheck, miss,
}

-- What a reader sees under a key at a time.
abbrev pub live : {A : Type 0} → ℕ → Option (Entry A) → Option A
live now none = none
live now (some e) = if leb e.expire_at now then none else e.value

module _ {A : Type 0} where
  pub get-value : (now : ℕ) (k : Text) (c : Cache A) → (get now k c).0 ≡ live now (lookup k c)
  unfolding get
  get-value now k c = ground arith

  -- The lazy deletion of an expired entry is seen by no read at that time or later.
  pub get-get :
      (now later : ℕ) (k j : Text) (c : Cache A)
      → now ≤ later
      → (get later j (get now k c).1).0 ≡ (get later j c).0
  unfolding get
  get-get now later k j c h = ground (arith, lookup-erase k j c, eq_iff k j)

  -- A read at any time after a write: the written value until its time is up, then `None`; other
  -- keys are as before the write.
  pub get-set :
      (now later ttl : ℕ) (k j : Text) (v : Option A) (c : Cache A)
      → (get later j (set now k v ttl c)).0
        ≡ (if k == j then (if ltb later (now + ttl) then v else none) else (get later j c).0)
  unfolding set get
  get-set now later ttl k j v c =
      ground (arith, lookup-insert k j (record { value = v; expire_at = now + ttl }) c)

  -- After an invalidation the key reads as `None`, other keys as before.
  pub get-invalidate :
      (now : ℕ) (k j : Text) (c : Cache A)
      → (get now j (invalidate k c)).0 ≡ (if k == j then none else (get now j c).0)
  unfolding invalidate get
  get-invalidate now k j c = ground (arith, lookup-erase k j c)

module _ {A W : Type 0} where
  -- A hit returns the cached value, and neither waits for the lock nor runs the factory.
  pub get_or_set-hit :
      (t : Clock) (k : Text) (ttl : ℕ) (lock : State A W → State A W) (factory : Load A W)
      (c : Cache A) (w : W) (v : A)
      → (get t.first k c).0 ≡ some v
      → get_or_set t k ttl lock factory (c, w) ≡ (ok (some v), (c, w))
  unfolding get_or_set get
  get_or_set-hit t k ttl lock factory c w v h = ground arith

  fill_lem :
      (now later : ℕ) (k : Text) (ttl : ℕ) (r : Outcome Exn (Option A)) (s : State A W)
      → let (r', s') = fill now k ttl r s in
        (r' ≡ r)
        × (s'.1 ≡ s.1)
        × ((v : Option A) → r ≡ ok v → later < now + ttl → (get later k s'.0).0 ≡ v)
        × ((e : Exn) → r ≡ err e → s'.0 ≡ s.0)
  unfolding fill
  fill_lem now later k ttl (ok v) (c, w) =
      (refl, refl, λ u e h. ground (arith, get-set now later ttl k k v c, eq_refl k), λ e h. cc)
  fill_lem now later k ttl (err e) (c, w) = (refl, refl, λ v h. cc, λ x h. refl)

  -- On a miss that is still one under the lock, the factory runs once, on the state that the lock
  -- was taken in. Its value is returned and is what the cache then gives until its time is up; its
  -- exception is passed on with the state that it left.
  pub get_or_set-miss :
      (t : Clock) (k : Text) (ttl later : ℕ) (lock : State A W → State A W) (factory : Load A W)
      (c : Cache A) (w : W)
      → (get t.first k c).0 ≡ none
      → let (c₁, w₁) = lock ((get t.first k c).1, w) in
        (get t.second k c₁).0 ≡ none
        → let (r, s) = factory ((get t.second k c₁).1, w₁) in
          let (r', s') = get_or_set t k ttl lock factory (c, w) in
          (r' ≡ r)
          × (s'.1 ≡ s.1)
          × ((v : Option A) → r ≡ ok v → later < t.stored + ttl → (get later k s'.0).0 ≡ v)
          × ((e : Exn) → r ≡ err e → s'.0 ≡ s.0)
  unfolding get_or_set
  get_or_set-miss t k ttl later lock factory c w h h' =
      let (c₁, w₁) = lock ((get t.first k c).1, w) in
      let (r, s) = factory ((get t.second k c₁).1, w₁) in
      rw (h, miss, h', recheck) (fill_lem t.stored later k ttl r s)
