-- ===== src/Infra/Breaker.antt =====
-- infrastructure/resilience/circuit_breaker.py. Clock readings are arguments, in the unit of
-- `reset_timeout`. The two sections under the lock are `enter` and `on_success` or `on_failure`.
pub mod Calls
pub mod Races
use mini_agent_go.Prelude.{
  ℕ, zero, suc, ◌+◌, ◌-◌, ◌*◌, ◌/◌, ◌%◌, ◌≤◌, ◌<◌, ◌≡◌, refl, sym, ap, ◌∙◌, ◌≢◌, ◌↔◌, ◌⊎◌, inl, inr,
  Bool, true, false, not, ◌&&◌, ◌||◌, Option, none, some, List, [], ◌∷◌, ◌++◌, map, arith, ltb, leb,
  eqb, if◌then◌else◌, eqb_iff, Bool-cases, Option-cases, is_some, get_or, length, take, filter, all,
  find, All, length-append, length-filter, length-take, length-map, All-append, Text, codes,
  empty_text, is_empty, or_text, some_text, all_text, ◌==◌, eq_iff, eq_refl, eq-false, eq_sym,
  Outcome, ok, err, ◌>>=◌, >>=-eq-ok,
}
use mini_agent_go.Core.Exceptions.{Exn, raise, transient, assertion_error}

pub data CircuitState : Type 0 where
  closed opened half_open : CircuitState

pub record Breaker : Type 0 where
  pub name : Text
  pub fail_max : ℕ
  pub reset_timeout : ℕ
  pub state : CircuitState
  pub fail_count : ℕ
  pub opened_at : Option ℕ

abbrev pub new_breaker : Text → ℕ → ℕ → Breaker
new_breaker name fail_max reset_timeout = record {
  name = name;
  fail_max = fail_max;
  reset_timeout = reset_timeout;
  state = closed;
  fail_count = 0;
  opened_at = none;
}

-- the test while the circuit is open
knock : ℕ → Option ℕ → Breaker → Outcome Exn (Unit {0}) × Breaker
knock now none b = (raise assertion_error empty_text, b)
knock now (some t) b =
    if leb (t + b.reset_timeout) now
    then (ok tt, record b { state = half_open })
    else (raise transient (codes "circuit '" ++ (b.name ++ codes "' is open")), b)

enter_state : CircuitState → ℕ → Breaker → Outcome Exn (Unit {0}) × Breaker
unfolding knock
enter_state closed now b = (ok tt, b)
enter_state half_open now b = (ok tt, b)
enter_state opened now b = knock now b.opened_at b

-- the first section of `call`
unfoldable pub enter : ℕ → Breaker → Outcome Exn (Unit {0}) × Breaker
unfolding enter_state
enter now b = enter_state b.state now b

-- what an open breaker raises
err-cls : (x e : Exn) → ◌≡◌ {A = Outcome Exn (Unit {0})} (err x) (err e) → e.cls ≡ x.cls
err-cls x e h = cc

knock-raises :
    (now : ℕ) (o : Option ℕ) (b : Breaker) (e : Exn)
    → (knock now o b).0 ≡ err e
    → (e.cls ≡ transient) ⊎ (e.cls ≡ assertion_error)
unfolding knock
knock-raises now none b e h = inr (err-cls _ e h)
knock-raises now (some t) b e h = go (leb (t + b.reset_timeout) now) h
  where
    refusal : Exn
    refusal = record {
      cls = transient;
      message = codes "circuit '" ++ (b.name ++ codes "' is open");
    }

    go :
        (late : Bool)
        → let x : Outcome Exn (Unit {0}) × Breaker =
            if late then (ok tt, record b { state = half_open }) else (err refusal, b) in
          x.0 ≡ err e → (e.cls ≡ transient) ⊎ (e.cls ≡ assertion_error)
    go true h = cc
    go false h = inl (err-cls refusal e h)

pub enter-raises :
    (now : ℕ) (b : Breaker) (e : Exn)
    → (enter now b).0 ≡ err e
    → (e.cls ≡ transient) ⊎ (e.cls ≡ assertion_error)
unfolding enter
enter-raises now b e = go b.state
  where
    go :
        (s : CircuitState)
        → (enter_state s now b).0 ≡ err e
        → (e.cls ≡ transient) ⊎ (e.cls ≡ assertion_error)
    go closed h = unfold enter_state in cc
    go half_open h = unfold enter_state in cc
    go opened h = unfold enter_state in knock-raises now b.opened_at b e h

abbrev is_half_open : CircuitState → Bool
is_half_open half_open = true
is_half_open closed = false
is_half_open opened = false

-- `_on_success`
unfoldable pub on_success : Breaker → Breaker
on_success b = record b {
  state = if is_half_open b.state then closed else b.state;
  fail_count = 0;
  opened_at = none;
}

-- `_on_failure`
unfoldable pub on_failure : ℕ → Breaker → Breaker
on_failure now b =
    if is_half_open b.state || leb b.fail_max (b.fail_count + 1)
    then record b { state = opened; fail_count = b.fail_count + 1; opened_at = some now }
    else record b { fail_count = b.fail_count + 1 }

-- the clock when the call comes in, and when the call of `func` has failed
pub record CallClock : Type 0 where
  pub entered : ℕ
  pub failed : ℕ

module _ {A W : Type 0} where
  settle : ℕ → Breaker → Outcome Exn A × W → Outcome Exn A × Breaker × W
  settle now b (ok a, w) = (ok a, on_success b, w)
  settle now b (err e, w) = (err e, on_failure now b, w)

  admitted :
      ℕ
      → (W → Outcome Exn A × W)
      → Outcome Exn (Unit {0}) × Breaker
      → W
      → Outcome Exn A × Breaker × W
  unfolding settle
  admitted failed func (ok u, b) w = settle failed b (func w)
  admitted failed func (err e, b) w = (err e, b, w)

  -- `call`, when no other call is under way
  unfoldable pub call :
      CallClock → (W → Outcome Exn A × W) → Breaker → W → Outcome Exn A × Breaker × W
  unfolding admitted
  call t func b w = admitted t.failed func (enter t.entered b) w
