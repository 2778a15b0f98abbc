-- ===== src/Services/Checks/Results.antt =====
-- What a health check reports.
use mini_agent_go.Prelude.{
  ℕ, ◌≤◌, ◌≡◌, refl, Bool, true, false, Option, none, some, ◌++◌, arith, if◌then◌else◌, is_some,
  length, take, length-take, Text, codes, is_empty, some_text, Outcome, ok, err,
}
use mini_agent_go.Prelude.Dict.{Dict}
use mini_agent_go.Core.Exceptions.{Exn, is_instance, source_unavailable}
use mini_agent_go.Domain.Models.{SourceHealth, TvListSource}
use mini_agent_go.Services.Checks.{check, report, failure_text, headers_or_none}

-- A live source has a latency and no message; any other has a message of at most 500 characters and
-- no latency.
abbrev pub IsReport : SourceHealth → Type 0
IsReport h =
    if h.is_alive
    then (is_some h.latency_ms ≡ true) × (h.message ≡ none)
    else (h.latency_ms ≡ none) × (is_some h.message ≡ true) × (length (some_text h.message) ≤ 500)

module _ {R W : Type 0} (fetch : Text → Option (Dict Text) → W → Outcome Exn R × W)
    (now : W → ℕ) where
  failure_text-short : (e : Exn) → length (failure_text fetch now e) ≤ 500
  unfolding failure_text
  failure_text-short e = go (is_instance e source_unavailable)
    where
      go :
          (b : Bool)
          → length (if b then take 500 e.message else take 500 (codes "unexpected: " ++ e.message))
            ≤ 500
      go true = length-take 500 e.message
      go false = length-take 500 (codes "unexpected: " ++ e.message)

  reported :
      (s : TvListSource) (w : W) (out : Outcome Exn R × W)
      → let (h, w') = report fetch now s (now w) out in
        (h.source_id ≡ s.id)
        × IsReport h
        × (w' ≡ out.1)
        × ((x : R) → out.0 ≡ ok x → h.is_alive ≡ true)
        × ((e : Exn) → out.0 ≡ err e → h.is_alive ≡ false)
  unfolding report
  reported s w (ok x, w') = (refl, (refl, refl), refl, (λ y h. refl), (λ e h. cc))
  reported s w (err e, w') =
      (refl, (refl, refl, failure_text-short e), refl, (λ y h. cc), (λ e' h. refl))

  -- A check reports the source that it was given, as alive exactly if it has a URL and the fetch of
  -- that URL succeeds, and in the form of `IsReport`; a source without a URL is not fetched.
  pub check-IsReport :
      (s : TvListSource) (w : W)
      → let (h, w') = check fetch now s w in
        (h.source_id ≡ s.id)
        × IsReport h
        × (is_empty (some_text s.url) ≡ true → (h.is_alive ≡ false) × (w' ≡ w))
        × (is_empty (some_text s.url) ≡ false
            → let (r, w'') = fetch (some_text s.url) (headers_or_none s.headers) w in
              (w' ≡ w'')
              × ((x : R) → r ≡ ok x → h.is_alive ≡ true)
              × ((e : Exn) → r ≡ err e → h.is_alive ≡ false))
  unfolding check
  check-IsReport s w = go (is_empty (some_text s.url))
    where
      go :
          (b : Bool)
          → let out = fetch (some_text s.url) (headers_or_none s.headers) w in
            let (h, w') =
              if b
              then (
                record {
                  source_id = s.id;
                  is_alive = false;
                  latency_ms = none;
                  checked_at = now w;
                  message = some (codes "no url configured");
                },
                w,
              )
              else report fetch now s (now w) out in
            (h.source_id ≡ s.id)
            × IsReport h
            × (b ≡ true → (h.is_alive ≡ false) × (w' ≡ w))
            × (b ≡ false
                → (w' ≡ out.1)
                  × ((x : R) → out.0 ≡ ok x → h.is_alive ≡ true)
                  × ((e : Exn) → out.0 ≡ err e → h.is_alive ≡ false))
      go true = (refl, (refl, refl, omega arith), (λ h. (refl, refl)), (λ h. cc))
      go false =
          let (same, form, world, good, bad) =
            reported s w (fetch (some_text s.url) (headers_or_none s.headers) w) in
          (same, form, (λ h. cc), (λ h. (world, good, bad)))
