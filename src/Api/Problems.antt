-- ===== src/Api/Problems.antt =====
-- The problem+json replies of interfaces/api/middleware/error_handler.py. `arg` is `e.args[0]` of a
-- `KeyError`, as text, and empty if there is none.
use mini_agent_go.Prelude.{
  ℕ, Bool, true, false, not, Option, none, some, [], ◌∷◌, ◌++◌, if◌then◌else◌, Text, codes,
  is_empty, or_text, some_text, ◌==◌,
}
use mini_agent_go.Prelude.Dict.{Dict}
use mini_agent_go.Core.Exceptions.{
  ErrorClass, tv_list_base, transient, permanent, source_unavailable, source_auth, parse,
  rate_limit, storage, llm, configuration, exception, value_error, permission_error, key_error,
  index_error, assertion_error, attribute_error, zero_division, runtime_error, transport,
  json_decode, validation, jwt, integrity, pending_rollback, http, Exn, is_instance,
}
use mini_agent_go.Core.Settings.{Settings}
use mini_agent_go.Domain.Models.{Json}

-- the body of a problem+json reply, without the keys whose value is `none`
pub record Problem : Type 0 where
  pub type_uri : Text
  pub title : Text
  pub status : ℕ
  pub detail : Text
  pub path : Text
  pub request_id : Text
  pub retryable : Option Bool
  pub error : Option Text

pub data Body : Type 0 where
  document : Problem → Body
  -- with the `errors` of a request that does not validate
  invalid : Problem → Json → Body
  content : Json → Body

pub record Reply : Type 0 where
  pub status_code : ℕ
  pub headers : Dict Text
  pub body : Body

-- `type(e).__name__`
unfoldable pub class_name : ErrorClass → Text
class_name tv_list_base = codes "TVListBaseError"
class_name transient = codes "TransientError"
class_name permanent = codes "PermanentError"
class_name source_unavailable = codes "SourceUnavailableError"
class_name source_auth = codes "SourceAuthError"
class_name parse = codes "ParseError"
class_name rate_limit = codes "RateLimitError"
class_name storage = codes "StorageError"
class_name llm = codes "LLMError"
class_name configuration = codes "ConfigurationError"
class_name exception = codes "Exception"
class_name value_error = codes "ValueError"
class_name permission_error = codes "PermissionError"
class_name key_error = codes "KeyError"
class_name index_error = codes "IndexError"
class_name assertion_error = codes "AssertionError"
class_name attribute_error = codes "AttributeError"
class_name zero_division = codes "ZeroDivisionError"
class_name runtime_error = codes "RuntimeError"
class_name transport = codes "TransportError"
class_name json_decode = codes "JSONDecodeError"
class_name validation = codes "ValidationError"
class_name jwt = codes "JWTError"
class_name integrity = codes "IntegrityError"
class_name pending_rollback = codes "PendingRollbackError"
class_name (http n) = codes "HTTPException"

-- `_problem`; `request_id` is the one of the request's state
unfoldable pub problem :
    Text → Option Text → ℕ → Text → Text → Text → Option Bool → Option Text → Reply
problem path request_id status title detail type_uri retryable error_name =
    let rid = or_text (some_text request_id) (codes "unknown") in
    record {
      status_code = status;
      headers = (codes "x-request-id", rid) ∷ [];
      body = document (record {
        type_uri = type_uri;
        title = title;
        status = status;
        detail = detail;
        path = path;
        request_id = rid;
        retryable = retryable;
        error = error_name;
      });
    }

module _ (arg : Exn → Text) (s : Settings) where
  key_detail : Text → Text
  key_detail key = if is_empty key then codes "key not found" else codes "key not found: " ++ key

  -- the `except` clauses, in order
  unfoldable pub handle : Text → Option Text → Exn → Reply
  unfolding problem class_name key_detail
  handle path rid e =
      let name = some (class_name e.cls) in
      if is_instance e transient
      then problem path rid 503 (codes "Service Unavailable") e.message
          (codes "/problems/transient-error") (some true) name
      else if is_instance e permanent
      then problem path rid 400 (codes "Bad Request") e.message (codes "/problems/permanent-error")
          (some false) name
      else if is_instance e tv_list_base
      then problem path rid 400 (codes "Domain Error") e.message (codes "/problems/domain-error")
          none name
      else if is_instance e value_error
      then problem path rid 400 (codes "Bad Request") (or_text e.message (codes "invalid value"))
          (codes "/problems/value-error") none name
      else if is_instance e permission_error
      then problem path rid 403 (codes "Forbidden") (or_text e.message (codes "permission denied"))
          (codes "/problems/permission-error") none name
      else if is_instance e key_error
      then problem path rid 404 (codes "Not Found") (key_detail (arg e))
          (codes "/problems/key-error") none name
      else if not (s.app_env == codes "production")
      then problem path rid 500 (codes "Internal Server Error")
          (class_name e.cls ++ (codes ": " ++ e.message)) (codes "/problems/internal-error") none
          none
      else problem path rid 500 (codes "Internal Server Error") (codes "internal error")
          (codes "/problems/internal-error") none none
