-- ===== src/Infra/Bucket.antt =====
-- infrastructure/resilience/rate_limiter.py, with exact numbers in place of floats: a time is in
-- milliseconds, and tokens are counted in 60000ths, so that a bucket of `rate` tokens a minute gains
-- `rate` of these in a millisecond. The clock does not run backwards.
use mini_agent_go.Prelude.{
  ℕ, suc, ◌+◌, ◌-◌, ◌*◌, ◌≤◌, ◌<◌, ◌≡◌, refl, ◌≢◌, Option, none, some, List, [], ◌∷◌, arith, ltb,
  eqb, if◌then◌else◌, length, empty_text, Outcome, ok, err,
}
use Prim.Native.Nat.{min}
use mini_agent_go.Core.Exceptions.{Exn, raise, zero_division}

pub record TokenBucket : Type 0 where
  pub rate : ℕ
  pub capacity : ℕ
  pub tokens : ℕ
  pub last : ℕ

abbrev pub token : ℕ
token = 60000

unfoldable pub new_bucket : ℕ → ℕ → TokenBucket
new_bucket rate now = record {
  rate = rate;
  capacity = rate * token;
  tokens = rate * token;
  last = now;
}

-- A time to sleep: so many milliseconds, over the rate.
abbrev pub Sleep : Type 0
Sleep = Option ℕ

refill : ℕ → TokenBucket → TokenBucket
refill now b = record b { tokens = min b.capacity (b.tokens + (now - b.last) * b.rate); last = now }

take_token : TokenBucket → Outcome Exn Sleep × TokenBucket
take_token b =
    if ltb b.tokens token
    then (if eqb b.rate 0
        then (raise zero_division empty_text, b)
        else (ok (some (token - b.tokens)), record b { tokens = 0 }))
    else (ok none, record b { tokens = b.tokens - token })

-- `acquire`; the sleep is what it awaits with the lock held
unfoldable pub acquire : ℕ → TokenBucket → Outcome Exn Sleep × TokenBucket
unfolding refill take_token
acquire now b = take_token (refill now b)

pub record IsFull (b : TokenBucket) : Type 0 where
  pub sized : b.capacity ≡ b.rate * token
  pub within : b.tokens ≤ b.capacity

pub new_bucket-IsFull : (rate now : ℕ) → IsFull (new_bucket rate now)
unfolding new_bucket
new_bucket-IsFull rate now = ground arith

-- The tokens never pass the capacity, and the capacity stays the rate's.
pub acquire-IsFull : (now : ℕ) (b : TokenBucket) → IsFull b → IsFull (acquire now b).1
unfolding acquire
acquire-IsFull now b h = ground arith

-- A bucket for a positive rate never raises; one for rate 0 divides by zero at every call.
pub acquire-raises :
    (now : ℕ) (b : TokenBucket)
    → IsFull b
    → ((0 < b.rate) → (e : Exn) → (acquire now b).0 ≢ err e)
      × (b.rate ≡ 0 → (acquire now b).0 ≡ raise zero_division empty_text)
unfolding acquire
acquire-raises now b f = (λ pos e h. ground arith, λ z. grind arith)

-- Calls at the given times, none of which has to sleep.
abbrev pub Grants : List ℕ → TokenBucket → TokenBucket → Type 0
Grants [] b b' = b ≡ b'
Grants (t ∷ ts) b b' = (b.last ≤ t) × ((acquire t b).0 ≡ ok none) × Grants ts (acquire t b).1 b'

acquire-spends :
    (t : ℕ) (b : TokenBucket)
    → b.last ≤ t
    → (acquire t b).0 ≡ ok none
    → ((acquire t b).1.tokens + token + b.last * b.rate ≤ b.tokens + t * b.rate)
      × ((acquire t b).1.last ≡ t)
      × ((acquire t b).1.rate ≡ b.rate)
unfolding acquire
acquire-spends t b h g = grind arith

bound_step :
    (t : ℕ) (c b b' : TokenBucket) (n : ℕ)
    → c.tokens + token + b.last * b.rate ≤ b.tokens + t * b.rate
    → c.last ≡ t
    → c.rate ≡ b.rate
    → b'.tokens + n * token + c.last * c.rate ≤ c.tokens + b'.last * c.rate
    → b'.tokens + suc n * token + b.last * b.rate ≤ b.tokens + b'.last * b.rate
bound_step t c b b' n spent last_eq rate_eq h =
    let k : c.last * c.rate ≡ t * b.rate = rw (last_eq, rate_eq) refl in
    let m : b'.last * c.rate ≡ b'.last * b.rate = rw rate_eq refl in omega arith

-- Calls that need not sleep are paid for by the tokens at the start and what the time in between
-- has added: there are no more of them than that.
pub Grants-bound :
    (ts : List ℕ) (b b' : TokenBucket)
    → Grants ts b b'
    → (b'.tokens + length ts * token + b.last * b.rate ≤ b.tokens + b'.last * b.rate)
Grants-bound [] b b' g = rw g (omega arith)
Grants-bound (t ∷ ts) b b' (h, g, gs) =
    let (spent, last_eq, rate_eq) = acquire-spends t b h g in
    bound_step t (acquire t b).1 b b' (length ts) spent last_eq rate_eq
      (Grants-bound ts (acquire t b).1 b' gs)

-- A call that has to sleep empties the bucket as of the time before its sleep, so that the sleep is
-- counted again: from an empty bucket, the next call after the sleep need not sleep. Two calls get
-- through in the time in which one token comes in.
pub sleep_counted_twice :
    (now later n : ℕ) (b : TokenBucket)
    → IsFull b
    → 0 < b.rate
    → b.tokens ≡ 0
    → b.last ≡ now
    → (acquire now b).0 ≡ ok (some n)
    → n ≤ (later - now) * b.rate
    → (n ≡ token) × ((acquire later (acquire now b).1).0 ≡ ok none)
unfolding acquire
sleep_counted_twice now later n b f pos e l s w = grind arith
