-- ===== src/Infra/Breaker/Calls.antt =====
-- Calls one after another.
use mini_agent_go.Prelude.{
  ℕ, zero, suc, ◌+◌, ◌≤◌, ◌<◌, ◌≡◌, refl, ap, ◌∙◌, true, none, some, ◌++◌, arith, is_some, Text,
  codes, Outcome, ok, err,
}
use mini_agent_go.Core.Exceptions.{Exn, transient}
use mini_agent_go.Infra.Breaker.{
  CircuitState, closed, opened, half_open, Breaker, new_breaker, enter, on_success, on_failure,
  CallClock, call,
}

-- Between calls: closed with fewer failures than the limit, or open since a known time.
abbrev pub Sound : CircuitState → Breaker → Type 0
Sound closed b = (b.fail_count < b.fail_max) × (b.opened_at ≡ none)
Sound opened b = is_some b.opened_at ≡ true
Sound half_open b = ⊥

abbrev pub IsSound : Breaker → Type 0
IsSound b = Sound b.state b

abbrev pub refusal : Breaker → Exn
refusal b = record { cls = transient; message = codes "circuit '" ++ (b.name ++ codes "' is open") }

module _ {A W : Type 0} (t : CallClock) (func : W → Outcome Exn A × W) (b : Breaker) (w : W) where
  -- While the circuit is open and its time is not up, a call is refused with a retryable error:
  -- the function is not run and the breaker does not change.
  pub call-opened_early :
      (since : ℕ)
      → b.state ≡ opened
      → b.opened_at ≡ some since
      → t.entered < since + b.reset_timeout
      → call t func b w ≡ (err (refusal b), b, w)
  unfolding call enter
  call-opened_early since s o h = ground arith

  -- Once the time is up, the function is run: its success closes the circuit with no failure
  -- counted, its failure opens it anew from the time of the failure.
  pub call-opened_late :
      (since : ℕ)
      → b.state ≡ opened
      → b.opened_at ≡ some since
      → since + b.reset_timeout ≤ t.entered
      → let (r, b', w') = call t func b w in
        (r ≡ (func w).0)
        × (w' ≡ (func w).1)
        × ((a : A)
            → (func w).0 ≡ ok a
            → (b'.state ≡ closed) × (b'.fail_count ≡ 0) × (b'.opened_at ≡ none))
        × ((e : Exn) → (func w).0 ≡ err e → (b'.state ≡ opened) × (b'.opened_at ≡ some t.failed))
  unfolding call enter on_success on_failure
  call-opened_late since s o h = ground arith

  -- With a positive limit, a call that no other call overlaps leaves a sound breaker sound: closed with
  -- fewer failures than the limit and no opening time, or open with one, and never half open.
  pub call-IsSound : 0 < b.fail_max → IsSound b → IsSound (call t func b w).1
  unfolding call enter on_success on_failure
  call-IsSound pos h = cases b.state refl h
    where
      cases : (s : CircuitState) → b.state ≡ s → Sound s b → IsSound (call t func b w).1
      cases closed e k = ground arith
      cases opened e k = ground arith
      cases half_open e k = absurd k

-- A call whose function fails.
unfoldable pub failing_one : CallClock → Exn → Breaker → Breaker
failing_one t e b = (call {A = Unit {0}} {W = Unit {0}} t (λ w. (err e, w)) b tt).1

-- `n` calls one after another that all fail, at the times of a clock.
unfoldable pub failing : ℕ → (ℕ → CallClock) → Exn → Breaker → Breaker
unfolding failing_one
failing zero clock e b = b
failing (suc n) clock e b = failing_one (clock n) e (failing n clock e b)

module _ (name : Text) (n reset : ℕ) where
  counted : ℕ → Breaker
  counted k = record (new_breaker name (suc n) reset) { fail_count = k }

  failing_one-counted :
      (t : CallClock) (e : Exn) (k : ℕ) → k < n → failing_one t e (counted k) ≡ counted (suc k)
  unfolding failing_one counted call enter on_failure
  failing_one-counted t e k h = ground arith

  failing-counted :
      (clock : ℕ → CallClock) (e : Exn) (k : ℕ) → k ≤ n → failing k clock e (counted 0) ≡ counted k
  unfolding failing
  failing-counted clock e zero h = refl
  failing-counted clock e (suc k) h =
      ap (failing_one (clock k) e) (failing-counted clock e k (omega arith))
      ∙ failing_one-counted (clock k) e k h

  failing_one-last :
      (t : CallClock) (e : Exn)
      → let b = failing_one t e (counted n) in (b.state ≡ opened) × (b.opened_at ≡ some t.failed)
  unfolding failing_one counted call enter on_failure
  failing_one-last t e = ground arith

-- Up to the limit, consecutive failures leave a new breaker closed and are counted; the failure
-- that reaches the limit opens it, as of the time of that failure.
pub failing-new :
    (name : Text) (n reset : ℕ) (clock : ℕ → CallClock) (e : Exn) (k : ℕ)
    → k ≤ n
    → let b = failing k clock e (new_breaker name (suc n) reset) in
      let b' = failing (suc n) clock e (new_breaker name (suc n) reset) in
      (b ≡ record (new_breaker name (suc n) reset) { fail_count = k })
      × (b'.state ≡ opened)
      × (b'.opened_at ≡ some (clock n).failed)
unfolding counted failing
failing-new name n reset clock e k h =
    let last = failing_one-last name n reset (clock n) e in
    let all_but_one = failing-counted name n reset clock e n (omega arith) in
    (
      failing-counted name n reset clock e k h,
      ap (λ (b : Breaker). (failing_one (clock n) e b).state) all_but_one ∙ last.0,
      ap (λ (b : Breaker). (failing_one (clock n) e b).opened_at) all_but_one ∙ last.1,
    )
