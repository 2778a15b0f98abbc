-- ===== src/Api/Stack.antt =====
-- interfaces/api/middleware/{request_id,access_log,error_handler}.py, the metrics of
-- routers/metrics.py that they update, and the order in which `create_app` of app.py puts them round
-- the application. `arg` is `e.args[0]` of a `KeyError`, `new_id` is `uuid4`, and times are
-- milliseconds.
pub mod Served
use mini_agent_go.Prelude.{
  ℕ, zero, suc, ◌+◌, ◌-◌, ◌*◌, ◌/◌, ◌%◌, ◌≤◌, ◌<◌, ◌≡◌, refl, sym, ap, ◌∙◌, ◌≢◌, ◌↔◌, ◌⊎◌, inl, inr,
  Bool, true, false, not, ◌&&◌, ◌||◌, Option, none, some, List, [], ◌∷◌, ◌++◌, map, arith, ltb, leb,
  eqb, if◌then◌else◌, eqb_iff, Bool-cases, Option-cases, is_some, get_or, length, take, filter, all,
  find, All, length-append, length-filter, length-take, length-map, All-append, Text, codes,
  empty_text, is_empty, or_text, some_text, all_text, ◌==◌, decimal, eq_iff, eq_refl, eq-false,
  eq_sym, Outcome, ok, err, ◌>>=◌, >>=-eq-ok,
}
use mini_agent_go.Prelude.Dict.{Dict, lookup, insert}
use mini_agent_go.Core.Exceptions.{
  ErrorClass, tv_list_base, transient, permanent, source_unavailable, source_auth, parse,
  rate_limit, storage, llm, configuration, exception, value_error, permission_error, key_error,
  assertion_error, attribute_error, zero_division, runtime_error, transport, json_decode,
  validation, jwt, integrity, http, Exn, is_instance,
}
use mini_agent_go.Core.Settings.{Settings}
use mini_agent_go.Api.Problems.{Reply, handle}
use mini_agent_go.Domain.Models.{Json}

pub record Request : Type 0 where
  pub method : Text
  pub path : Text
  pub headers : Dict Text

pub data Level : Type 0 where
  info warning error : Level

-- a line "http.access" of the log
pub record AccessLine : Type 0 where
  pub level : Level
  pub method : Text
  pub path : Text
  pub status_code : ℕ
  pub duration_ms : ℕ
  pub trace_id : Text
  pub error : Option Text

-- a call of `observe_http_request`
pub record Observed : Type 0 where
  pub method : Text
  pub path : Text
  pub status : Text
  pub duration_ms : ℕ

-- `request.state.request_id`, the gauge of requests in progress, what was observed and logged, the
-- newest first, and the clock
pub record Scope : Type 0 where
  pub request_id : Option Text
  pub in_progress : ℕ
  pub observed : List Observed
  pub access : List AccessLine
  pub clock : ℕ

abbrev pub Handler : Type 0
Handler = Request → Scope → Outcome Exn Reply × Scope

-- `inc_inprogress` and `dec_inprogress`; the gauge is at least 1 where it is decremented
unfoldable pub inc_inprogress : Scope → Scope
inc_inprogress c = record c { in_progress = c.in_progress + 1 }

unfoldable pub dec_inprogress : Scope → Scope
dec_inprogress c = record c { in_progress = c.in_progress - 1 }

unfoldable pub observe_http_request : Request → ℕ → ℕ → Scope → Scope
observe_http_request q status ms c = record c {
  observed =
      record { method = q.method; path = q.path; status = decimal status; duration_ms = ms }
      ∷ c.observed;
}

-- `RequestIDMiddleware`
answered_with : Text → Outcome Exn Reply × Scope → Outcome Exn Reply × Scope
answered_with rid (err e, c) = (err e, c)
answered_with rid (ok r, c) =
    (ok (record r { headers = insert (codes "x-request-id") rid r.headers }), c)

unfoldable pub request_id_layer : Text → Handler → Handler
unfolding answered_with
request_id_layer new_id call_next q c =
    let rid = or_text (some_text (lookup (codes "x-request-id") q.headers)) new_id in
    answered_with rid (call_next q (record c { request_id = some rid }))

-- `AccessLogMiddleware`
log_access : AccessLine → Scope → Scope
log_access l c = record c { access = l ∷ c.access }

logged : Request → ℕ → Text → Outcome Exn Reply × Scope → Outcome Exn Reply × Scope
unfolding log_access observe_http_request dec_inprogress
logged q start trace_id (err e, c) =
    let ms = c.clock - start in
    (
      err e,
      dec_inprogress (
          observe_http_request q 500 ms (
            log_access
              (record {
                level = error;
                method = q.method;
                path = q.path;
                status_code = 500;
                duration_ms = ms;
                trace_id = trace_id;
                error = some e.message;
              })
              c)),
    )
logged q start trace_id (ok r, c) =
    let ms = c.clock - start in
    (
      ok r,
      log_access
          (record {
            level = if ltb 500 ms then warning else info;
            method = q.method;
            path = q.path;
            status_code = r.status_code;
            duration_ms = ms;
            trace_id = trace_id;
            error = none;
          })
          (dec_inprogress (observe_http_request q r.status_code ms c)),
    )

unfoldable pub access_log_layer : Handler → Handler
unfolding logged inc_inprogress
access_log_layer call_next q c =
    let trace_id = or_text (some_text c.request_id) (codes "-") in
    logged q c.clock trace_id (call_next q (inc_inprogress c))

module _ (arg : Exn → Text) (s : Settings) where
  caught : Request → Outcome Exn Reply × Scope → Reply × Scope
  unfolding handle
  caught q (ok r, c) = (r, c)
  caught q (err e, c) = (handle arg s q.path c.request_id e, c)

  -- `ErrorHandlerMiddleware`
  unfoldable pub error_handler : Handler → Request → Scope → Reply × Scope
  unfolding caught
  error_handler call_next q c = caught q (call_next q c)

  -- the stack of `create_app`: what is added last is outermost
  unfoldable pub serve : Text → Handler → Request → Scope → Reply × Scope
  unfolding error_handler access_log_layer request_id_layer
  serve new_id app = error_handler (access_log_layer (request_id_layer new_id app))
