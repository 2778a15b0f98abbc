-- ===== src/Infra/Http/Outcomes.antt =====
-- What `fetch` returns and raises, and how often it calls `client.get`.
use mini_agent_go.Prelude.{
  ℕ, zero, suc, ◌+◌, ◌-◌, ◌≤◌, ◌<◌, ◌≡◌, refl, ap, ◌⊎◌, inl, inr, Bool, true, false, ◌||◌, Option,
  none, some, arith, ltb, eqb, if◌then◌else◌, Bool-cases, Text, Outcome, ok, err,
}
use mini_agent_go.Prelude.Dict.{Dict}
use mini_agent_go.Core.Exceptions.{
  ErrorClass, rate_limit, source_auth, permanent, source_unavailable, transient, assertion_error,
  zero_division, Exn, is_instance, transport, is_subclass,
}
use mini_agent_go.Infra.Breaker.{enter, enter-raises, Breaker}
use mini_agent_go.Infra.Bucket.{acquire, TokenBucket}
use mini_agent_go.Infra.Http.{
  FetchResult, Response, Net, Retrier, classify, retryable, Fetcher, attempt, fetch, unavailable,
  receive, guarded, send, await_bucket,
}

module _ {S A : Type 0} (retrier : Retrier) (p : Exn → Bool) (pause : S → S) where
  -- What holds of every attempt's outcome holds of the outcome of the retries.
  run-outcome :
      (body : S → Outcome Exn A × S) (P : Outcome Exn A → Type 0)
      → ((s : S) → P (body s).0)
      → (n : ℕ) (s : S) → P (retrier.run p pause (suc n) body s).0
  run-outcome body P h zero s = go (body s) refl (h s)
    where
      go : (x : Outcome Exn A × S) → body s ≡ x → P x.0 → P (retrier.run p pause 1 body s).0
      go (ok a, s') e k = rw (retrier.run-ok p pause 0 body s s' a e) k
      go (err x, s') e k = rw (retrier.run-last p pause body s s' x e) k
  run-outcome body P h (suc n) s = go (body s) refl (h s) (run-outcome body P h n)
    where
      go :
          (x : Outcome Exn A × S)
          → body s ≡ x
          → P x.0
          → ((s : S) → P (retrier.run p pause (suc n) body s).0)
          → P (retrier.run p pause (suc (suc n)) body s).0
      go (ok a, s') e k ih = rw (retrier.run-ok p pause (suc n) body s s' a e) k
      go (err x, s') e k ih = elim (Bool-cases (p x)) [
        | inl again ↦ rw (retrier.run-again p pause n body s s' x e again) (ih (pause s'))
        | inr fatal ↦ rw (retrier.run-fatal p pause (suc n) body s s' x e fatal) k
      ]

  -- What an attempt raises by at most one, and a pause does not raise, `n` attempts raise by at
  -- most `n`.
  run-measure :
      (body : S → Outcome Exn A × S) (m : S → ℕ)
      → ((s : S) → m (body s).1 ≤ m s + 1)
      → ((s : S) → m (pause s) ≤ m s)
      → (n : ℕ) (s : S) → m (retrier.run p pause (suc n) body s).1 ≤ m s + suc n
  run-measure body m h q zero s = go (body s) refl (h s)
    where
      go :
          (x : Outcome Exn A × S)
          → body s ≡ x
          → m x.1 ≤ m s + 1
          → m (retrier.run p pause 1 body s).1 ≤ m s + 1
      go (ok a, s') e k = rw (retrier.run-ok p pause 0 body s s' a e) k
      go (err x, s') e k = rw (retrier.run-last p pause body s s' x e) k
  run-measure body m h q (suc n) s = go (body s) refl (h s) (run-measure body m h q n)
    where
      go :
          (x : Outcome Exn A × S)
          → body s ≡ x
          → m x.1 ≤ m s + 1
          → ((s : S) → m (retrier.run p pause (suc n) body s).1 ≤ m s + suc n)
          → m (retrier.run p pause (suc (suc n)) body s).1 ≤ m s + suc (suc n)
      go (ok a, s') e k ih = rw (retrier.run-ok p pause (suc n) body s s' a e) (omega arith)
      go (err x, s') e k ih = elim (Bool-cases (p x)) [
        | inl again ↦
            rw (retrier.run-again p pause n body s s' x e again)
              (omega (arith, ih (pause s'), q s'))
        | inr fatal ↦ rw (retrier.run-fatal p pause (suc n) body s s' x e fatal) (omega arith)
      ]

classify-ok :
    (url : Text) (ms : ℕ) (resp : Response) (r : FetchResult)
    → classify url ms resp ≡ ok r
    → (r.status_code < 400)
      × (r.url ≡ url)
      × (r.status_code ≡ resp.status_code)
      × (r.body ≡ resp.content)
unfolding classify
classify-ok url ms resp r h = ground arith

-- The class of error that a status of 400 or more is to be raised as.
abbrev pub status_class : ℕ → ErrorClass
status_class n =
    if ltb n 500
    then if eqb n 429 then rate_limit else if eqb n 401 || eqb n 403 then source_auth else permanent
    else source_unavailable

classify-err :
    (url : Text) (ms : ℕ) (resp : Response) (e : Exn)
    → classify url ms resp ≡ err e
    → (400 ≤ resp.status_code) × (e.cls ≡ status_class resp.status_code)
unfolding classify
classify-err url ms resp e h = ground arith

acquire-err :
    (now : ℕ) (b : TokenBucket) (e : Exn) → (acquire now b).0 ≡ err e → e.cls ≡ zero_division
unfolding acquire
acquire-err now b e h = ground arith

breaker-not_transport :
    (e : Exn) → (e.cls ≡ transient) ⊎ (e.cls ≡ assertion_error) → is_instance e transport ≡ false
unfolding is_subclass
breaker-not_transport e (inl h) = ap (λ (c : ErrorClass). is_subclass c transport) h
breaker-not_transport e (inr h) = ap (λ (c : ErrorClass). is_subclass c transport) h

module _ (net : Net) (url : Text) (headers : Option (Dict Text)) (timeout : ℕ) where
  open net use {World, now, get, sleep}

  -- A call of `client.get` in some state returned `resp`.
  abbrev pub IsAnswer : Response → Type 0
  IsAnswer resp = (w w' : World) × (get url headers timeout w ≡ (ok resp, w'))

  -- A call of `client.get` in some state raised `x`.
  abbrev pub IsFailure : Exn → Type 0
  IsFailure x = (w w' : World) × (get url headers timeout w ≡ (err x, w'))

  -- Where an error of `fetch` comes from: the status of an answer, a failure of the client, which is
  -- raised as `SourceUnavailableError` if it is an `httpx.TransportError`, the breaker, or the bucket.
  pub data IsRaised (e : Exn) : Type 0 where
    by_status :
        (resp : Response)
        → IsAnswer resp
        → 400 ≤ resp.status_code
        → e.cls ≡ status_class resp.status_code
        → IsRaised e
    by_transport :
        (x : Exn)
        → IsFailure x
        → is_instance x transport ≡ true
        → e ≡ record x { cls = source_unavailable }
        → IsRaised e
    by_client : IsFailure e → is_instance e transport ≡ false → IsRaised e
    by_breaker : (e.cls ≡ transient) ⊎ (e.cls ≡ assertion_error) → IsRaised e
    by_bucket : e.cls ≡ zero_division → IsRaised e

  -- What an outcome of `fetch` is: a page of the URL with the status, below 400, and the content of an
  -- answer, or an error from one of these places.
  abbrev pub IsFetched : Outcome Exn FetchResult → Type 0
  IsFetched (ok r) =
      (r.url ≡ url)
      × (r.status_code < 400)
      × ((resp : Response) × IsAnswer resp
          × (r.status_code ≡ resp.status_code)
          × (r.body ≡ resp.content))
  IsFetched (err e) = IsRaised e

  receive-IsFetched :
      (start : ℕ) (f : Fetcher net) (w : World) (x : Outcome Exn Response × World)
      → get url headers timeout w ≡ x
      → IsFetched (receive net url start f x).0
  unfolding receive
  receive-IsFetched start f w (ok resp, w') h =
      of_classify (classify url (now w' - start) resp) refl
    where
      of_classify :
          (r : Outcome Exn FetchResult) → classify url (now w' - start) resp ≡ r → IsFetched r
      of_classify (ok r) e =
          let (below, same, status, body) = classify-ok url (now w' - start) resp r e in
          (same, below, (resp, (w, w', h), status, body))
      of_classify (err x) e =
          let (above, cls) = classify-err url (now w' - start) resp x e in
          by_status resp (w, w', h) above cls
  receive-IsFetched start f w (err e, w') h = elim (Bool-cases (is_instance e transport)) [
    | inl t ↦ unfold unavailable in rw t (by_transport e (w, w', h) t refl)
    | inr t ↦ unfold unavailable in rw t (by_client (w, w', h) t)
  ]

  guarded-IsFetched :
      (f : Fetcher net) (x : Outcome Exn (Unit {0}) × Breaker)
      → ((e : Exn) → x.0 ≡ err e → (e.cls ≡ transient) ⊎ (e.cls ≡ assertion_error))
      → IsFetched (guarded net url headers timeout f x).0
  unfolding guarded
  guarded-IsFetched f (err e, b) h =
      let kept = breaker-not_transport e (h e refl) in
      unfold unavailable in rw kept (by_breaker (h e refl))
  guarded-IsFetched f (ok u, b) h =
      receive-IsFetched (now f.world) (record f { breaker = b }) f.world
        (get url headers timeout f.world) refl

  send-IsFetched :
      (f : Fetcher net) (x : Outcome Exn (Option ℕ) × TokenBucket)
      → ((e : Exn) → x.0 ≡ err e → e.cls ≡ zero_division)
      → IsFetched (send net url headers timeout (await_bucket net x f)).0
  unfolding send await_bucket
  send-IsFetched f (err e, b) h = by_bucket (h e refl)
  send-IsFetched f (ok none, b) h =
      guarded-IsFetched (record f { bucket = b }) (enter (now f.world) f.breaker)
        (enter-raises (now f.world) f.breaker)
  send-IsFetched f (ok (some n), b) h =
      let w = sleep n b.rate f.world in
      guarded-IsFetched (record f { bucket = b; world = w }) (enter (now w) f.breaker)
        (enter-raises (now w) f.breaker)

  attempt-IsFetched : (f : Fetcher net) → IsFetched (attempt net url headers timeout f).0
  unfolding attempt
  attempt-IsFetched f =
      send-IsFetched f (acquire (now f.world) f.bucket) (acquire-err (now f.world) f.bucket)

  -- However often it is retried, `fetch` returns only a page of its URL with the status and the
  -- content of an answer of the client, below 400. What it raises is the error for the status of an
  -- answer of 400 or more, by a table of its own; a failure of the client, an `httpx.TransportError`
  -- as `SourceUnavailableError`; the refusal of the breaker; or the division by the bucket's rate 0.
  pub fetch-IsFetched :
      (retrier : Retrier) (pause : Fetcher net → Fetcher net) (f : Fetcher net)
      → IsFetched (fetch net retrier pause url headers timeout f).0
  unfolding fetch
  fetch-IsFetched retrier pause f =
      run-outcome retrier retryable pause (attempt net url headers timeout) IsFetched
        attempt-IsFetched 3 f

module _ (net : Net) where
  open net use {World, now, get, sleep}

  -- However a fetch ends, it has called `client.get` at most four times, where each call counts as one,
  -- whatever redirects are followed inside it, and pauses count as none.
  pub fetch-calls :
      (retrier : Retrier) (pause : Fetcher net → Fetcher net) (calls : World → ℕ) (url : Text)
      (headers : Option (Dict Text)) (timeout : ℕ) (f : Fetcher net)
      → ((w : World) → calls (get url headers timeout w).1 ≡ calls w + 1)
      → ((n rate : ℕ) (w : World) → calls (sleep n rate w) ≡ calls w)
      → ((g : Fetcher net) → calls (pause g).world ≡ calls g.world)
      → calls (fetch net retrier pause url headers timeout f).1.world ≤ calls f.world + 4
  unfolding fetch attempt
  fetch-calls retrier pause calls url headers timeout f one quiet same =
      run-measure retrier retryable pause (attempt net url headers timeout)
        (λ (g : Fetcher net). calls g.world) (λ g. calls-attempt g (acquire (now g.world) g.bucket))
        (λ g. omega (arith, same g)) 3 f
    where
      calls-receive :
          (start : ℕ) (g : Fetcher net) (x : Outcome Exn Response × World)
          → calls (receive net url start g x).1.world ≡ calls x.1
      calls-receive start g (ok r, w) = unfold receive in refl
      calls-receive start g (err e, w) = unfold receive in refl

      calls-guarded :
          (g : Fetcher net) (x : Outcome Exn (Unit {0}) × Breaker)
          → calls (guarded net url headers timeout g x).1.world ≤ calls g.world + 1
      calls-guarded g (err e, b) = unfold guarded in omega arith
      calls-guarded g (ok u, b) =
          unfold guarded in
          omega (
            arith,
            calls-receive (now g.world) (record g { breaker = b })
                (get url headers timeout g.world),
            one g.world,
          )

      calls-attempt :
          (g : Fetcher net) (x : Outcome Exn (Option ℕ) × TokenBucket)
          → calls (send net url headers timeout (await_bucket net x g)).1.world ≤ calls g.world + 1
      calls-attempt g (err e, b) = unfold send await_bucket in omega arith
      calls-attempt g (ok none, b) =
          unfold send await_bucket in
          calls-guarded (record g { bucket = b }) (enter (now g.world) g.breaker)
      calls-attempt g (ok (some n), b) =
          let w = sleep n b.rate g.world in
          unfold send await_bucket in
          omega (
            arith,
            calls-guarded (record g { bucket = b; world = w }) (enter (now w) g.breaker),
            quiet n b.rate g.world,
          )
