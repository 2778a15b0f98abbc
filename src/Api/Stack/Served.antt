-- ===== src/Api/Stack/Served.antt =====
-- What the stack makes of whatever the application does.
use mini_agent_go.Prelude.{
  ℕ, ◌+◌, ◌-◌, ◌≡◌, refl, ap, ◌∙◌, Bool, true, false, ◌||◌, Option, none, some, [], ◌∷◌, arith,
  if◌then◌else◌, Text, codes, is_empty, or_text, some_text, ◌==◌, decimal, Outcome, ok, err,
}
use mini_agent_go.Prelude.Dict.{lookup, lookup-insert_self}
use mini_agent_go.Core.Exceptions.{
  Exn, tv_list_base, transient, permanent, value_error, permission_error, key_error, is_instance,
  is_subclass, ErrorClass, source_unavailable, source_auth, parse, rate_limit, storage, llm,
  configuration, json_decode, validation,
}
use mini_agent_go.Core.Settings.{Settings}
use mini_agent_go.Api.Problems.{Reply, handle, problem}
use mini_agent_go.Api.Stack.{
  Handler, Request, Scope, AccessLine, Observed, serve, caught, logged, answered_with, log_access,
  observe_http_request, inc_inprogress, dec_inprogress, ErrorClass, access_log_layer,
  request_id_layer, error_handler,
}

-- the status for an exception, as the error handler's table has it
abbrev pub status_of : Exn → ℕ
status_of e =
    if is_instance e transient
    then 503
    else if is_instance e permission_error
    then 403
    else if is_instance e key_error
    then 404
    else if is_instance e tv_list_base || is_instance e value_error
    then 400
    else 500

module _ (arg : Exn → Text) (s : Settings) where
  handle-status :
      (path : Text) (rid : Option Text) (e : Exn)
      → (handle arg s path rid e).status_code ≡ status_of e
  handle-status path rid e = go e.cls (s.app_env == codes "production") refl
    where
      go :
          (c : ErrorClass) (b : Bool)
          → (s.app_env == codes "production") ≡ b
          → (handle arg s path rid (record e { cls = c })).status_code
            ≡ status_of (record e { cls = c })
      go tv_list_base b h = unfold handle problem is_subclass in refl
      go transient b h = unfold handle problem is_subclass in refl
      go permanent b h = unfold handle problem is_subclass in refl
      go source_unavailable b h = unfold handle problem is_subclass in refl
      go source_auth b h = unfold handle problem is_subclass in refl
      go parse b h = unfold handle problem is_subclass in refl
      go rate_limit b h = unfold handle problem is_subclass in refl
      go storage b h = unfold handle problem is_subclass in refl
      go llm b h = unfold handle problem is_subclass in refl
      go configuration b h = unfold handle problem is_subclass in refl
      go value_error b h = unfold handle problem is_subclass in refl
      go permission_error b h = unfold handle problem is_subclass in refl
      go key_error b h = unfold handle problem is_subclass in refl
      go json_decode b h = unfold handle problem is_subclass in refl
      go validation b h = unfold handle problem is_subclass in refl
      go c true h = unfold handle problem is_subclass in rw h refl
      go c false h = unfold handle problem is_subclass in rw h refl

  handle-request_id :
      (path : Text) (rid : Option Text) (e : Exn)
      → lookup (codes "x-request-id") (handle arg s path rid e).headers
        ≡ some (or_text (some_text rid) (codes "unknown"))
  unfolding handle problem lookup ◌==◌
  handle-request_id path rid e = ground arith

  -- the entry that the access log makes of the metrics
  abbrev pub entry : Request → Scope → ℕ → Scope → Observed
  entry q c status c1 = record {
    method = q.method;
    path = q.path;
    status = decimal status;
    duration_ms = c1.clock - c.clock;
  }

  -- the reply and the metrics for what the application did
  abbrev pub IsServed : Request → Scope → Outcome Exn Reply × Scope → Reply × Scope → Type 0
  IsServed q c (ok a, c1) (r, c') =
      (r.status_code ≡ a.status_code)
      × (r.body ≡ a.body)
      × (c'.observed ≡ entry q c a.status_code c1 ∷ c1.observed)
  IsServed q c (err e, c1) (r, c') =
      (r.status_code ≡ status_of e) × (c'.observed ≡ entry q c 500 c1 ∷ c1.observed)

  kept_id :
      (sent new_id : Text)
      → is_empty new_id ≡ false
      → or_text (or_text sent new_id) (codes "unknown") ≡ or_text sent new_id
  kept_id [] [] h = cc
  kept_id [] (d ∷ t) h = refl
  kept_id (d ∷ t) new_id h = refl

  caught-IsServed :
      (q : Request) (c : Scope) (rid trace_id : Text) (x : Outcome Exn Reply × Scope)
      → x.1.request_id ≡ some rid
      → x.1.in_progress ≡ c.in_progress + 1
      → or_text rid (codes "unknown") ≡ rid
      → let (r, c') = caught arg s q (logged q c.clock trace_id (answered_with rid x)) in
        IsServed q c x (r, c')
        × (lookup (codes "x-request-id") r.headers ≡ some rid)
        × (c'.in_progress ≡ c.in_progress)
        × ((l : AccessLine) × (c'.access ≡ l ∷ x.1.access) × (l.trace_id ≡ trace_id))
  unfolding caught logged answered_with log_access observe_http_request dec_inprogress
  caught-IsServed q c rid trace_id (ok a, c1) id counted kept = (
    (refl, refl, refl),
    lookup-insert_self (codes "x-request-id") rid a.headers,
    omega (arith, counted),
    (_, refl, refl),
  )
  caught-IsServed q c rid trace_id (err e, c1) id counted kept = (
    (handle-status q.path c1.request_id e, refl),
    handle-request_id q.path c1.request_id e
        ∙ ap (λ (o : Option Text). some (or_text (some_text o) (codes "unknown"))) id
        ∙ ap some kept,
    omega (arith, counted),
    (_, refl, refl),
  )

  -- The stack always answers. Whatever the application returns is passed on with its status, and what
  -- it raises becomes a reply with the status of `status_of`; either way the reply has the id of the
  -- request, which is the client's if it sent one, and the gauge is back where it was, if the
  -- application leaves the id and the gauge alone. What is observed of an exception is status 500, and
  -- the log line has the trace id "-" in both cases, because the id is set further inside.
  pub serve-IsServed :
      (new_id : Text) (app : Handler) (q : Request) (c : Scope)
      → is_empty new_id ≡ false
      → c.request_id ≡ none
      → ((d : Scope) → (app q d).1.request_id ≡ d.request_id)
      → ((d : Scope) → (app q d).1.in_progress ≡ d.in_progress)
      → let rid = or_text (some_text (lookup (codes "x-request-id") q.headers)) new_id in
        let (r, c') = serve arg s new_id app q c in
        IsServed q c (app q (record (inc_inprogress c) { request_id = some rid })) (r, c')
        × (lookup (codes "x-request-id") r.headers ≡ some rid)
        × (c'.in_progress ≡ c.in_progress)
        × ((l : AccessLine) × (c'.access
              ≡ l ∷ (app q (record (inc_inprogress c) { request_id = some rid })).1.access)
            × (l.trace_id ≡ codes "-"))
  unfolding serve access_log_layer request_id_layer error_handler
  serve-IsServed new_id app q c real unset same balanced =
      let rid = or_text (some_text (lookup (codes "x-request-id") q.headers)) new_id in
      let d = record (inc_inprogress c) { request_id = some rid } in
      rw unset (
        caught-IsServed q c rid (codes "-") (app q d) (same d)
          (balanced d ∙ (unfold inc_inprogress in refl))
          (kept_id (some_text (lookup (codes "x-request-id") q.headers)) new_id real))
