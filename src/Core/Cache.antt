-- ===== src/Core/Cache.antt =====
-- core/cache.py: the process-wide TTL cache. Clock readings are arguments, in ticks of the clock
-- that `time.monotonic` reads; `none` is Python's `None`, as an absent value and as a cached one.
pub mod Laws
pub mod Flight
use mini_agent_go.Prelude.{
  ℕ, zero, suc, ◌+◌, ◌-◌, ◌*◌, ◌/◌, ◌%◌, ◌≤◌, ◌<◌, ◌≡◌, refl, sym, ap, ◌∙◌, ◌≢◌, ◌↔◌, ◌⊎◌, inl, inr,
  Bool, true, false, not, ◌&&◌, ◌||◌, Option, none, some, List, [], ◌∷◌, ◌++◌, map, arith, ltb, leb,
  eqb, if◌then◌else◌, eqb_iff, Bool-cases, Option-cases, is_some, get_or, length, take, filter, all,
  find, All, length-append, length-filter, length-take, length-map, All-append, Text, codes,
  empty_text, is_empty, or_text, some_text, all_text, ◌==◌, eq_iff, eq_refl, eq-false, eq_sym,
  Outcome, ok, err, ◌>>=◌, >>=-eq-ok,
}
use mini_agent_go.Prelude.Dict.{Dict, lookup, insert, erase}
use mini_agent_go.Core.Exceptions.{Exn}

pub record Entry (A : Type 0) : Type 0 where
  pub value : Option A
  pub expire_at : ℕ

abbrev pub Cache : Type 0 → Type 0
Cache A = Dict (Entry A)

module _ {A : Type 0} where
  read : ℕ → Text → Option (Entry A) → Cache A → Option A × Cache A
  read now key none c = (none, c)
  read now key (some e) c = if leb e.expire_at now then (none, erase key c) else (e.value, c)

  unfoldable pub get : ℕ → Text → Cache A → Option A × Cache A
  unfolding read
  get now key c = read now key (lookup key c) c

  unfoldable pub set : ℕ → Text → Option A → ℕ → Cache A → Cache A
  set now key value ttl c = insert key (record { value = value; expire_at = now + ttl }) c

  unfoldable pub invalidate : Text → Cache A → Cache A
  invalidate key c = erase key c

  unfoldable pub clear : Cache A → Cache A
  clear c = []

-- `W` is the rest of the world. What other tasks do to the cache while this one waits for the lock
-- is `lock`, and while the factory runs it is part of the factory.
abbrev pub State : Type 0 → Type 0 → Type 0
State A W = Cache A × W

abbrev pub Load : Type 0 → Type 0 → Type 0
Load A W = State A W → Outcome Exn (Option A) × State A W

-- the clock at the first read, at the second read, and when the factory has returned
pub record Clock : Type 0 where
  pub first : ℕ
  pub second : ℕ
  pub stored : ℕ

module _ {A W : Type 0} where
  fill : ℕ → Text → ℕ → Outcome Exn (Option A) → State A W → Outcome Exn (Option A) × State A W
  fill now key ttl (ok v) (c, w) = (ok v, (set now key v ttl c, w))
  fill now key ttl (err e) (c, w) = (err e, (c, w))

  recheck : Clock → Text → ℕ → Load A W → Option A → State A W → Outcome Exn (Option A) × State A W
  unfolding fill
  recheck t key ttl factory (some v) s = (ok (some v), s)
  recheck t key ttl factory none s = let (r, s') = factory s in fill t.stored key ttl r s'

  miss :
      Clock
      → Text
      → ℕ
      → (State A W → State A W)
      → Load A W
      → Option A
      → State A W
      → Outcome Exn (Option A) × State A W
  unfolding recheck
  miss t key ttl lock factory (some v) s = (ok (some v), s)
  miss t key ttl lock factory none s =
      let (c, w) = lock s in
      let (again, c') = get t.second key c in recheck t key ttl factory again (c', w)

  unfoldable pub get_or_set :
      Clock
      → Text
      → ℕ
      → (State A W → State A W)
      → Load A W
      → State A W
      → Outcome Exn (Option A) × State A W
  unfolding miss
  get_or_set t key ttl lock factory (c, w) =
      let (cached, c') = get t.first key c in miss t key ttl lock factory cached (c', w)
