-- ===== src/Api/Handlers/Answers.antt =====
-- What a client gets for an `HTTPException`, through the handlers and the middleware.
use mini_agent_go.Prelude.{
  ℕ, ◌≡◌, refl, false, Option, none, some, ◌∷◌, Text, codes, is_empty, or_text, some_text, Outcome,
  ok, err,
}
use mathlib.Core.Path.{subst}
use mini_agent_go.Prelude.Dict.{Dict, lookup}
use mini_agent_go.Core.Exceptions.{Exn, http}
use mini_agent_go.Core.Settings.{Settings}
use mini_agent_go.Domain.Models.{Json}
use mini_agent_go.Api.Problems.{Reply, document}
use mini_agent_go.Api.Stack.{Request, Scope, Handler, serve, inc_inprogress}
use mini_agent_go.Api.Stack.Served.{serve-IsServed, entry, IsServed}
use mini_agent_go.Api.Handlers.{
  application, responded, answered, handled_as, http_exception_handler,
}

-- the id of a request, and the scope in which the application runs
abbrev pub id_of : Text → Request → Text
id_of new_id q = or_text (some_text (lookup (codes "x-request-id") q.headers)) new_id

abbrev pub inner : Text → Request → Scope → Scope
inner new_id q c = record (inc_inprogress c) { request_id = some (id_of new_id q) }

-- A handler that leaves the id of the request and the gauge alone.
pub record IsQuiet (app : Handler) (q : Request) : Type 0 where
  pub same_id : (d : Scope) → (app q d).1.request_id ≡ d.request_id
  pub same_gauge : (d : Scope) → (app q d).1.in_progress ≡ d.in_progress

-- The answer to an `HTTPException` with the status `n` that a route raised in the scope `c1`.
pub record IsRefused (new_id : Text) (q : Request) (c c1 : Scope) (n : ℕ) (detail : Text)
    (arg : Exn → Text) (s : Settings) (r : Reply × Scope) : Type 0 where
  pub status : r.0.status_code ≡ n
  pub problem :
      r.0.body
      ≡ document (record {
        type_uri = codes "/problems/http-error";
        title = detail;
        status = n;
        detail = detail;
        path = q.path;
        request_id = or_text (some_text c1.request_id) (codes "unknown");
        retryable = none;
        error = none;
      })
  pub identified : lookup (codes "x-request-id") r.0.headers ≡ some (id_of new_id q)
  pub counted : r.1.observed ≡ entry arg s q c n c1 ∷ c1.observed

module _ (headers_of : Exn → Dict Text) (errors_of : Request → Option Json) (routes : Handler)
    (q : Request) where
  application-IsQuiet : IsQuiet routes q → IsQuiet (application headers_of errors_of routes) q
  unfolding application
  application-IsQuiet quiet = record {
    same_id =
        λ d. kept (λ (e : Scope). e.request_id) d (errors_of q) (routes q d) (quiet.same_id d);
    same_gauge =
        λ d. kept (λ (e : Scope). e.in_progress) d (errors_of q) (routes q d) (quiet.same_gauge d);
  }
    where
      kept :
          {A : Type 0} (f : Scope → A) (d : Scope) (o : Option Json) (x : Outcome Exn Reply × Scope)
          → f x.1 ≡ f d
          → f (responded headers_of q d o x).1 ≡ f d
      kept f d none (ok r, c) h = h
      kept f d none (err e, c) h = h
      kept f d (some errors) x h = refl

  application-http :
      (d c1 : Scope) (n : ℕ) (detail : Text)
      → errors_of q ≡ none
      → routes q d ≡ (err (record { cls = http n; message = detail }), c1)
      → application headers_of errors_of routes q d ≡ (
        ok (
            http_exception_handler q c1 n detail
              (headers_of (record { cls = http n; message = detail }))),
        c1,
      )
  unfolding application responded answered handled_as
  application-http d c1 n detail v h = rw (v, h) refl

  -- A route that raises an `HTTPException` is answered with its status, with its detail in a body of
  -- the type "/problems/http-error", and with the id of the request. The metrics count that status,
  -- not 500, because the handler is inside the access log.
  pub serve-IsRefused :
      (arg : Exn → Text) (s : Settings) (new_id : Text) (c c1 : Scope) (n : ℕ) (detail : Text)
      → is_empty new_id ≡ false
      → c.request_id ≡ none
      → IsQuiet routes q
      → errors_of q ≡ none
      → routes q (inner new_id q c) ≡ (err (record { cls = http n; message = detail }), c1)
      → IsRefused new_id q c c1 n detail arg s
          (serve arg s new_id (application headers_of errors_of routes) q c)
  unfolding http_exception_handler
  serve-IsRefused arg s new_id c c1 n detail real unset quiet valid h =
      let app = application headers_of errors_of routes in
      let still = application-IsQuiet quiet in
      let (served, id, gauge, line) =
        serve-IsServed arg s new_id app q c real unset still.same_id still.same_gauge in
      let (status, body, seen) =
        subst (λ x. IsServed arg s q c x (serve arg s new_id app q c))
          (application-http (inner new_id q c) c1 n detail valid h) served in
      record { status = status; problem = body; identified = id; counted = seen }
