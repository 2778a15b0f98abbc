-- ===== src/Api/Handlers.antt =====
-- The exception handlers that `create_app` of interfaces/api/app.py adds, inside the middleware.
-- `headers_of` is `exc.headers or {}`; the detail of each `HTTPException` of the program is a text.
pub mod Answers
use mini_agent_go.Prelude.{
  ℕ, zero, suc, ◌+◌, ◌-◌, ◌*◌, ◌/◌, ◌%◌, ◌≤◌, ◌<◌, ◌≡◌, refl, sym, ap, ◌∙◌, ◌≢◌, ◌↔◌, ◌⊎◌, inl, inr,
  Bool, true, false, not, ◌&&◌, ◌||◌, Option, none, some, List, [], ◌∷◌, ◌++◌, map, arith, ltb, leb,
  eqb, if◌then◌else◌, eqb_iff, Bool-cases, Option-cases, is_some, get_or, length, take, filter, all,
  find, All, length-append, length-filter, length-take, length-map, All-append, Text, codes,
  empty_text, is_empty, or_text, some_text, all_text, count, append-nil, append_assoc, All-take,
  All-filter, All-not_counted, All-implied, All-both, count-append, count-filter,
  length-filter-count, ◌==◌, decimal, eq_iff, eq_refl, eq-false, eq_sym, Outcome, ok, err, ◌>>=◌,
  >>=-eq-ok,
}
use mini_agent_go.Prelude.Dict.{Dict, lookup, insert}
use mini_agent_go.Core.Exceptions.{Exn, ErrorClass, http}
use mini_agent_go.Core.Settings.{Settings}
use mini_agent_go.Domain.Models.{Json}
use mini_agent_go.Api.Problems.{Problem, Body, document, invalid, Reply}
use mini_agent_go.Api.Stack.{Request, Scope, Handler, serve, inc_inprogress}

-- `headers.setdefault(k, v)`
unfoldable pub set_default : Text → Text → Dict Text → Dict Text
set_default k v d = elim (lookup k d) [ none ↦ insert k v d | some u ↦ d ]

-- `getattr(request.state, "request_id", None) or "unknown"`
abbrev rid_of : Scope → Text
rid_of c = or_text (some_text c.request_id) (codes "unknown")

-- `_http_exception_handler`, for an `HTTPException`
unfoldable pub http_exception_handler : Request → Scope → ℕ → Text → Dict Text → Reply
unfolding set_default
http_exception_handler q c status detail headers = record {
  status_code = status;
  headers = set_default (codes "x-request-id") (rid_of c) headers;
  body = document (record {
    type_uri = codes "/problems/http-error";
    title = detail;
    status = status;
    detail = detail;
    path = q.path;
    request_id = rid_of c;
    retryable = none;
    error = none;
  });
}

-- `_validation_handler`, for a request that does not validate
unfoldable pub validation_handler : Request → Scope → Json → Reply
validation_handler q c errors = record {
  status_code = 422;
  headers = (codes "x-request-id", rid_of c) ∷ [];
  body =
      invalid
        (record {
          type_uri = codes "/problems/validation-error";
          title = codes "Validation Error";
          status = 422;
          detail = codes "request validation failed";
          path = q.path;
          request_id = rid_of c;
          retryable = none;
          error = none;
        })
        errors;
}

module _ (headers_of : Exn → Dict Text) where
  handled_as : Request → Scope → Exn → ErrorClass → Outcome Exn Reply
  unfolding http_exception_handler
  handled_as q c e (http n) = ok (http_exception_handler q c n e.message (headers_of e))
  handled_as q c e _ = err e

  answered : Request → Outcome Exn Reply × Scope → Outcome Exn Reply × Scope
  unfolding handled_as
  answered q (ok r, c) = (ok r, c)
  answered q (err e, c) = (handled_as q c e e.cls, c)

  responded : Request → Scope → Option Json → Outcome Exn Reply × Scope → Outcome Exn Reply × Scope
  unfolding answered validation_handler
  responded q c none x = answered q x
  responded q c (some errors) x = (ok (validation_handler q c errors), c)

  -- the routes with their parameters read: a request that does not validate reaches no route
  unfoldable pub application : (Request → Option Json) → Handler → Handler
  unfolding responded
  application errors_of routes q c = responded q c (errors_of q) (routes q c)
