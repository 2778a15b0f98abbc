-- ===== src/Tests/InfraRuns.antt =====
-- Runs of the circuit breaker, the token bucket, the fetcher and the router of language models.
use mini_agent_go.Prelude.{
  ℕ, zero, suc, ◌+◌, ◌*◌, ◌≤◌, ◌≡◌, refl, Bool, true, false, none, some, [], ◌∷◌, arith,
  if◌then◌else◌, codes, empty_text, Outcome, ok, err,
}
use mini_agent_go.Core.Exceptions.{Exn, raise, transport, assertion_error}
use mini_agent_go.Infra.Breaker.{Breaker, closed, opened, CallClock, new_breaker, enter, call}
use mini_agent_go.Infra.Breaker.Calls.{IsSound, call-opened_late, call-IsSound}
use mini_agent_go.Infra.Breaker.Races.{
  Shared, Reach, here, IsWedged, start, IsWedged-reachable, wedged_forever, let_in,
}
use mini_agent_go.Infra.Bucket.{
  TokenBucket, token, new_bucket, acquire, Grants-bound, sleep_counted_twice,
}
use mini_agent_go.Infra.Http.{Net, Retrier, Fetcher, FetchResult, new_fetcher, fetch}
use mini_agent_go.Infra.Http.Outcomes.{IsFetched, fetch-IsFetched, fetch-calls}

abbrev open_breaker : Breaker
open_breaker = record (new_breaker (codes "b") 2 30) {
  state = opened;
  fail_count = 2;
  opened_at = some 100;
}

abbrev succeed : ℕ → Outcome Exn ℕ × ℕ
succeed w = (ok 7, w + 1)

abbrev late : CallClock
late = record { entered = 130; failed = 131 }

abbrev after_late : Outcome Exn ℕ × Breaker × ℕ
after_late = call late succeed open_breaker 0

call-opened_late_example :
    (after_late.0 ≡ ok 7)
    × (after_late.2 ≡ 1)
    × ((a : ℕ)
        → (succeed 0).0 ≡ ok a
        → (after_late.1.state ≡ closed)
          × (after_late.1.fail_count ≡ 0)
          × (after_late.1.opened_at ≡ none))
    × ((e : Exn)
        → (succeed 0).0 ≡ err e
        → (after_late.1.state ≡ opened) × (after_late.1.opened_at ≡ some 131))
call-opened_late_example = call-opened_late late succeed open_breaker 0 100 refl refl (omega arith)

call-IsSound_example : IsSound after_late.1
call-IsSound_example = call-IsSound late succeed open_breaker 0 (omega arith) refl

IsWedged-reachable_example : (s : Shared) × Reach (start (codes "b") 2 30) s × IsWedged s
IsWedged-reachable_example = IsWedged-reachable (codes "b") 1 30

abbrev wedged : Shared
wedged = record { breaker = record open_breaker { opened_at = none }; running = 0 }

wedged_forever_example :
    (wedged ≡ wedged)
    × (enter 1000 wedged.breaker ≡ (raise assertion_error empty_text, wedged.breaker))
wedged_forever_example =
    wedged_forever 1000 (record { opened_state = refl; no_time = refl; nobody = refl }) here

three_let_in : let_in 3 130 open_breaker ≡ 3
unfolding let_in enter
three_let_in = refl

abbrev two_tokens : TokenBucket
two_tokens = new_bucket 2 0

Grants-bound_example : 0 + 2 * token + 0 ≤ 2 * token + 0
unfolding new_bucket acquire
Grants-bound_example =
    Grants-bound (0 ∷ 0 ∷ []) two_tokens (acquire 0 (acquire 0 two_tokens).1).1
      (omega arith, refl, (omega arith, refl, refl))

sleep_counted_twice_example :
    (token ≡ token) × ((acquire 30000 (acquire 0 (record two_tokens { tokens = 0 })).1).0 ≡ ok none)
unfolding new_bucket acquire
sleep_counted_twice_example =
    sleep_counted_twice 0 30000 token (record two_tokens { tokens = 0 })
      (record { sized = refl; within = omega arith }) (omega arith) refl refl refl (omega arith)

-- an instance of `Retrier`
retried :
    {S A : Type 0}
    → (Exn → Bool)
    → (S → S)
    → ℕ
    → (S → Outcome Exn A × S)
    → Outcome Exn A × S
    → Outcome Exn A × S
retried p pause zero body (ok a, s) = (ok a, s)
retried p pause zero body (err e, s) = (err e, s)
retried p pause (suc n) body (ok a, s) = (ok a, s)
retried p pause (suc n) body (err e, s) =
    let again = retried p pause n body (body (pause s)) in if p e then again else (err e, s)

retry :
    {S A : Type 0} → (Exn → Bool) → (S → S) → ℕ → (S → Outcome Exn A × S) → S → Outcome Exn A × S
unfolding retried
retry p pause zero body s = body s
retry p pause (suc n) body s = retried p pause n body (body s)

retry-ok :
    {S A : Type 0} (p : Exn → Bool) (pause : S → S) (n : ℕ) (body : S → Outcome Exn A × S)
    (s s' : S) (a : A)
    → body s ≡ (ok a, s')
    → retry p pause (suc n) body s ≡ (ok a, s')
unfolding retry
retry-ok p pause zero body s s' a h = rw h refl
retry-ok p pause (suc n) body s s' a h = rw h refl

retry-fatal :
    {S A : Type 0} (p : Exn → Bool) (pause : S → S) (n : ℕ) (body : S → Outcome Exn A × S)
    (s s' : S) (e : Exn)
    → body s ≡ (err e, s')
    → p e ≡ false
    → retry p pause (suc n) body s ≡ (err e, s')
unfolding retry
retry-fatal p pause zero body s s' e h k = rw h refl
retry-fatal p pause (suc n) body s s' e h k = rw (h, k) refl

retry-last :
    {S A : Type 0} (p : Exn → Bool) (pause : S → S) (body : S → Outcome Exn A × S) (s s' : S)
    (e : Exn)
    → body s ≡ (err e, s')
    → retry p pause 1 body s ≡ (err e, s')
unfolding retry
retry-last p pause body s s' e h = rw h refl

retry-again :
    {S A : Type 0} (p : Exn → Bool) (pause : S → S) (n : ℕ) (body : S → Outcome Exn A × S)
    (s s' : S) (e : Exn)
    → body s ≡ (err e, s')
    → p e ≡ true
    → retry p pause (suc (suc n)) body s ≡ retry p pause (suc n) body (pause s')
unfolding retry
retry-again p pause n body s s' e h k = rw (h, k) refl

abbrev retrier : Retrier
retrier = record {
  run = retry;
  run-ok = retry-ok;
  run-fatal = retry-fatal;
  run-last = retry-last;
  run-again = retry-again;
}

-- a net on which nothing answers; its world counts the requests
abbrev down_net : Net
down_net = record {
  World = ℕ;
  now = λ w. w;
  get = λ u h t w. (raise transport (codes "refused"), w + 1);
  sleep = λ n r w. w;
}

abbrev down_fetch : Outcome Exn FetchResult × Fetcher down_net
down_fetch =
    fetch down_net retrier (λ f. f) (codes "http://a/") none 10 (new_fetcher down_net 120 0)

fetch-IsFetched_example : IsFetched down_net (codes "http://a/") none 10 down_fetch.0
fetch-IsFetched_example =
    fetch-IsFetched down_net (codes "http://a/") none 10 retrier (λ f. f)
      (new_fetcher down_net 120 0)

fetch-calls_example : down_fetch.1.world ≤ 4
unfolding new_fetcher
fetch-calls_example =
    fetch-calls down_net retrier (λ f. f) (λ w. w) (codes "http://a/") none 10
      (new_fetcher down_net 120 0) (λ w. refl) (λ n r w. refl) (λ g. refl)
