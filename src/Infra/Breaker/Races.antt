-- ===== src/Infra/Breaker/Races.antt =====
-- Calls that overlap: `func` runs outside the lock, so a call may end after the circuit has changed.
use mini_agent_go.Prelude.{
  ℕ, zero, suc, ◌+◌, ◌<◌, ◌≤◌, ◌≡◌, refl, sym, ◌∙◌, none, some, Text, ok, err, arith, empty_text,
}
use mathlib.Core.Path.{subst}
use mini_agent_go.Core.Exceptions.{Exn, raise, assertion_error}
use mini_agent_go.Infra.Breaker.{
  opened, half_open, Breaker, new_breaker, enter, on_success, on_failure,
}

-- The breaker, with how many calls run their function.
pub record Shared : Type 0 where
  pub breaker : Breaker
  pub running : ℕ

pub data Step (s : Shared) : Shared → Type 0 where
  admit :
      (now : ℕ) (b : Breaker)
      → enter now s.breaker ≡ (ok tt, b)
      → Step s (record { breaker = b; running = suc s.running })
  refuse :
      (now : ℕ) (e : Exn) (b : Breaker)
      → enter now s.breaker ≡ (err e, b)
      → Step s (record s { breaker = b })
  succeed :
      (n : ℕ) → s.running ≡ suc n → Step s (record { breaker = on_success s.breaker; running = n })
  failed :
      (now n : ℕ)
      → s.running ≡ suc n
      → Step s (record { breaker = on_failure now s.breaker; running = n })

pub data Reach (s : Shared) : Shared → Type 0 where
  here : Reach s s
  next : {t u : Shared} → Reach s t → Step t u → Reach s u

abbrev pub start : Text → ℕ → ℕ → Shared
start name fail_max reset = record { breaker = new_breaker name fail_max reset; running = 0 }

-- Open with no record of since when, and nobody left to change that.
pub record IsWedged (s : Shared) : Type 0 where
  pub opened_state : s.breaker.state ≡ opened
  pub no_time : s.breaker.opened_at ≡ none
  pub nobody : s.running ≡ 0

module _ (name : Text) (n reset : ℕ) where
  -- after `k` failures, with `m` calls still running
  abbrev busy : ℕ → ℕ → Shared
  busy k m = record {
    breaker = record (new_breaker name (suc n) reset) { fail_count = k };
    running = m;
  }

  admit_many : (m : ℕ) → Reach (start name (suc n) reset) (busy 0 m)
  unfolding enter
  admit_many zero = here
  admit_many (suc m) = next (admit_many m) (admit 0 (new_breaker name (suc n) reset) refl)

  on_failure-busy : (k : ℕ) → k < n → on_failure 0 (busy k 0).breaker ≡ (busy (suc k) 0).breaker
  unfolding on_failure
  on_failure-busy k h = ground arith

  fail_many : (k m : ℕ) → k ≤ n → Reach (start name (suc n) reset) (busy k m)
  fail_many zero m h = admit_many m
  fail_many (suc k) m h =
      subst
        (λ (b : Breaker). Reach (start name (suc n) reset) (record { breaker = b; running = m }))
        (on_failure-busy k h) (next (fail_many k (suc m) (omega arith)) (failed 0 m refl))

  -- As many failures as the limit, and then a success of a call that had started before them.
  wedged : Shared
  wedged = record { breaker = on_success (on_failure 0 (busy n 0).breaker); running = 0 }

  wedged-IsWedged : IsWedged wedged
  unfolding wedged on_success on_failure
  wedged-IsWedged = ground arith

  -- Whatever the limit, overlapping calls can leave a new breaker wedged: open, with no time since
  -- when, and with no call left that could change it.
  pub IsWedged-reachable : (s : Shared) × Reach (start name (suc n) reset) s × IsWedged s
  unfolding wedged
  IsWedged-reachable = (
    wedged,
    next (next (fail_many n 2 (omega arith)) (failed 0 1 refl)) (succeed 0 refl),
    wedged-IsWedged,
  )

enter-wedged :
    (s : Shared) (now : ℕ)
    → IsWedged s
    → enter now s.breaker ≡ (raise assertion_error empty_text, s.breaker)
unfolding enter
enter-wedged s now h = ground arith

Step-wedged : {s t : Shared} → Step s t → IsWedged s → t ≡ s
Step-wedged {s} (admit now b e) h = absurd (ground (arith, enter-wedged s now h))
Step-wedged {s} (refuse now e b q) h = ground (arith, enter-wedged s now h)
Step-wedged (succeed n e) h = absurd (ground arith)
Step-wedged (failed now n e) h = absurd (ground arith)

-- A wedged breaker stays as it is whatever is called, and lets nothing in at any time: every call
-- raises an `AssertionError`.
pub wedged_forever :
    {s t : Shared} (now : ℕ)
    → IsWedged s
    → Reach s t
    → (t ≡ s) × (enter now t.breaker ≡ (raise assertion_error empty_text, t.breaker))
wedged_forever {s} now h here = (refl, enter-wedged s now h)
wedged_forever {s} now h (next {t} {u} r st) =
    let e : t ≡ s = (wedged_forever now h r).0 in
    let eu : u ≡ t = Step-wedged st (subst IsWedged (sym e) h) in
    let es : u ≡ s = eu ∙ e in (es, enter-wedged u now (subst IsWedged (sym es) h))

-- How many of `n` calls that come in one after another, none of which has ended, are let in.
unfoldable pub let_in : ℕ → ℕ → Breaker → ℕ
let_in zero now b = 0
let_in (suc n) now b =
    let (r, b') = enter now b in
    let rest = let_in n now b' in elim r [ ok u ↦ suc rest | err e ↦ rest ]

let_in-half_open : (n now : ℕ) (b : Breaker) → b.state ≡ half_open → let_in n now b ≡ n
unfolding let_in enter
let_in-half_open zero now b h = refl
let_in-half_open (suc n) now b h = ground (arith, let_in-half_open n now b h)

-- Once the time of an open breaker is up, not one probe is let through but every call that comes
-- before the first of them has ended.
pub let_in-opened :
    (n now since : ℕ) (b : Breaker)
    → b.state ≡ opened
    → b.opened_at ≡ some since
    → since + b.reset_timeout ≤ now
    → let_in n now b ≡ n
unfolding let_in enter
let_in-opened zero now since b s o h = refl
let_in-opened (suc n) now since b s o h =
    ground (arith, let_in-half_open n now (record b { state = half_open }) refl)
