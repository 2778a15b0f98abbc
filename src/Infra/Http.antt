-- ===== src/Infra/Http.antt =====
-- infrastructure/http/client.py. `Net` is what the client does not implement: `httpx`'s GET, the
-- clock and the event loop's sleep. `Retrier` is tenacity's decorator.
pub mod Outcomes
use mini_agent_go.Prelude.{
  ℕ, zero, suc, ◌+◌, ◌-◌, ◌*◌, ◌/◌, ◌%◌, ◌≤◌, ◌<◌, ◌≡◌, refl, sym, ap, ◌∙◌, ◌≢◌, ◌↔◌, ◌⊎◌, inl, inr,
  Bool, true, false, not, ◌&&◌, ◌||◌, Option, none, some, List, [], ◌∷◌, ◌++◌, map, arith, ltb, leb,
  eqb, if◌then◌else◌, eqb_iff, Bool-cases, Option-cases, is_some, get_or, length, take, filter, all,
  find, All, length-append, length-filter, length-take, length-map, All-append, Text, codes,
  empty_text, is_empty, or_text, some_text, all_text, ◌==◌, eq_iff, eq_refl, eq-false, eq_sym,
  Outcome, ok, err, ◌>>=◌, >>=-eq-ok, decimal,
}
use mini_agent_go.Prelude.Dict.{Dict}
use mini_agent_go.Core.Exceptions.{
  Exn, raise, is_instance, transport, source_unavailable, rate_limit, source_auth, permanent,
}
use mini_agent_go.Infra.Breaker.{Breaker, new_breaker, enter, on_success, on_failure}
use mini_agent_go.Infra.Bucket.{TokenBucket, new_bucket, acquire}

-- An `httpx.Response`, as far as it is read.
pub record Response : Type 0 where
  pub status_code : ℕ
  pub content : Text
  pub headers : Dict Text

pub record FetchResult : Type 0 where
  pub url : Text
  pub status_code : ℕ
  pub body : Text
  pub headers : Dict Text
  pub elapsed_ms : ℕ

pub record Net : Type 1 where
  pub World : Type 0
  -- `time.monotonic`, in milliseconds
  pub now : World → ℕ
  pub get : Text → Option (Dict Text) → ℕ → World → Outcome Exn Response × World
  -- sleep for so many milliseconds over the rate of the bucket
  pub sleep : ℕ → ℕ → World → World

-- What `@retry(reraise=True, stop=stop_after_attempt(n), wait=…, retry=…)` makes of a body: `pause`
-- is the wait between two attempts.
pub record Retrier : Type 1 where
  pub run :
      {S A : Type 0} → (Exn → Bool) → (S → S) → ℕ → (S → Outcome Exn A × S) → S → Outcome Exn A × S
  -- a result is returned, and so is an error that is not to be retried
  pub run-ok :
      {S A : Type 0} (p : Exn → Bool) (pause : S → S) (n : ℕ) (body : S → Outcome Exn A × S)
      (s s' : S) (a : A)
      → body s ≡ (ok a, s')
      → run p pause (suc n) body s ≡ (ok a, s')
  pub run-fatal :
      {S A : Type 0} (p : Exn → Bool) (pause : S → S) (n : ℕ) (body : S → Outcome Exn A × S)
      (s s' : S) (e : Exn)
      → body s ≡ (err e, s')
      → p e ≡ false
      → run p pause (suc n) body s ≡ (err e, s')
  -- the last attempt's error is raised again
  pub run-last :
      {S A : Type 0} (p : Exn → Bool) (pause : S → S) (body : S → Outcome Exn A × S) (s s' : S)
      (e : Exn)
      → body s ≡ (err e, s')
      → run p pause 1 body s ≡ (err e, s')
  -- before that, an error to be retried is
  pub run-again :
      {S A : Type 0} (p : Exn → Bool) (pause : S → S) (n : ℕ) (body : S → Outcome Exn A × S)
      (s s' : S) (e : Exn)
      → body s ≡ (err e, s')
      → p e ≡ true
      → run p pause (suc (suc n)) body s ≡ run p pause (suc n) body (pause s')

-- the `if` ladder on `resp.status_code`
unfoldable pub classify : Text → ℕ → Response → Outcome Exn FetchResult
classify url elapsed resp =
    if eqb resp.status_code 429
    then raise rate_limit (codes "rate limited: " ++ url)
    else if eqb resp.status_code 401 || eqb resp.status_code 403
    then raise source_auth (codes "http " ++ (decimal resp.status_code ++ (codes " " ++ url)))
    else if leb 500 resp.status_code
    then raise source_unavailable (codes "5xx " ++ (decimal resp.status_code ++ (codes " " ++ url)))
    else if leb 400 resp.status_code
    then raise permanent (codes "http " ++ (decimal resp.status_code ++ (codes " " ++ url)))
    else ok (record {
      url = url;
      status_code = resp.status_code;
      body = resp.content;
      headers = resp.headers;
      elapsed_ms = elapsed;
    })

-- `retry_if_exception_type`
unfoldable pub retryable : Exn → Bool
retryable e =
    is_instance e source_unavailable || (is_instance e rate_limit || is_instance e transport)

module _ (net : Net) where
  open net use {World, now, get, sleep}

  pub record Fetcher : Type 0 where
    pub bucket : TokenBucket
    pub breaker : Breaker
    pub world : World

  unfoldable pub new_fetcher : ℕ → World → Fetcher
  new_fetcher rate_per_minute w = record {
    bucket = new_bucket rate_per_minute (now w);
    breaker = new_breaker (codes "http-fetcher") 5 30000;
    world = w;
  }

  -- `await self._bucket.acquire()`
  await_bucket : Outcome Exn (Option ℕ) × TokenBucket → Fetcher → Outcome Exn (Unit {0}) × Fetcher
  await_bucket (err e, b) f = (err e, record f { bucket = b })
  await_bucket (ok none, b) f = (ok tt, record f { bucket = b })
  await_bucket (ok (some n), b) f = (ok tt, record f { bucket = b; world = sleep n b.rate f.world })

  -- `except httpx.TransportError as e: raise SourceUnavailableError(str(e))`
  unavailable : Exn → Exn
  unavailable e = if is_instance e transport then record e { cls = source_unavailable } else e

  -- the second half of the breaker's `call`, and what follows it
  receive : Text → ℕ → Fetcher → Outcome Exn Response × World → Outcome Exn FetchResult × Fetcher
  unfolding unavailable
  receive url start f (ok resp, w) =
      (classify url (now w - start) resp, record f { breaker = on_success f.breaker; world = w })
  receive url start f (err e, w) =
      (err (unavailable e), record f { breaker = on_failure (now w) f.breaker; world = w })

  guarded :
      Text
      → Option (Dict Text)
      → ℕ
      → Fetcher
      → Outcome Exn (Unit {0}) × Breaker
      → Outcome Exn FetchResult × Fetcher
  unfolding receive unavailable
  guarded url headers timeout f (err e, b) = (err (unavailable e), record f { breaker = b })
  guarded url headers timeout f (ok u, b) =
      receive url (now f.world) (record f { breaker = b }) (get url headers timeout f.world)

  send :
      Text
      → Option (Dict Text)
      → ℕ
      → Outcome Exn (Unit {0}) × Fetcher
      → Outcome Exn FetchResult × Fetcher
  unfolding guarded
  send url headers timeout (err e, f) = (err e, f)
  send url headers timeout (ok u, f) = guarded url headers timeout f (enter (now f.world) f.breaker)

  -- the body of `fetch`: one attempt
  unfoldable pub attempt :
      Text → Option (Dict Text) → ℕ → Fetcher → Outcome Exn FetchResult × Fetcher
  unfolding await_bucket send
  attempt url headers timeout f =
      send url headers timeout (await_bucket (acquire (now f.world) f.bucket) f)

  -- `fetch`, with `stop_after_attempt(4)`
  unfoldable pub fetch :
      Retrier
      → (Fetcher → Fetcher)
      → Text
      → Option (Dict Text)
      → ℕ
      → Fetcher
      → Outcome Exn FetchResult × Fetcher
  fetch retrier pause url headers timeout =
      retrier.run retryable pause 4 (attempt url headers timeout)
