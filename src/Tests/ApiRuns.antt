-- ===== src/Tests/ApiRuns.antt =====
-- Runs of the logins and of the middleware.
use mini_agent_go.Core.Exceptions.{raise, http}
use mini_agent_go.Api.Handlers.{application}
use mini_agent_go.Api.Handlers.Answers.{IsRefused, serve-IsRefused}
use mini_agent_go.Prelude.{
  ℕ, zero, suc, ◌+◌, ◌*◌, ◌≤◌, ◌<◌, ◌≡◌, refl, true, false, Option, none, some, [], ◌∷◌, arith, ltb,
  if◌then◌else◌, Text, codes, empty_text, some_text, ◌==◌, Outcome, ok, err,
}
use mini_agent_go.Prelude.Dict.{lookup}
use mini_agent_go.Core.Exceptions.{Exn, raise, http, jwt, parse, is_subclass, is_instance}
use mini_agent_go.Core.Settings.{default_settings}
use mini_agent_go.Infra.Table.Log.{find_in}
use mini_agent_go.Infra.Users.{make_user, get_by_username, to_domain}
use mini_agent_go.Services.Auth.{authenticate, verify_password}
use mini_agent_go.Api.Security.{Jwt, Claims, create_access_token}
use mini_agent_go.Api.Login.{TokenOut, login, refresh_token}
use mini_agent_go.Api.Login.Tokens.{IsToken, login-IsToken, refresh_token-IsToken}
use mini_agent_go.Api.Problems.{Reply}
use mini_agent_go.Api.Stack.{Handler, Request, Scope, AccessLine, serve, inc_inprogress}
use mini_agent_go.Api.Stack.Served.{IsServed, serve-IsServed}
use mini_agent_go.Tests.Samples.{user_table, plain_passwords, one_user, admin}

-- tokens that are the claims in the open
put : Option Text → Text → Text
put none k = 0 ∷ k
put (some []) k = 1 ∷ k
put (some (c ∷ t)) k = 2 ∷ c ∷ put (some t) k

take_out : Text → Option Text × Text
take_out [] = (none, [])
take_out (zero ∷ k) = (none, k)
take_out (suc zero ∷ k) = (some [], k)
take_out (suc (suc n) ∷ []) = (none, [])
take_out (suc (suc n) ∷ c ∷ k) = let (o, r) = take_out k in (some (c ∷ some_text o), r)

take_out-put : (o : Option Text) (k : Text) → take_out (put o k) ≡ (o, k)
unfolding take_out put
take_out-put none k = refl
take_out-put (some []) k = refl
take_out-put (some (c ∷ t)) k = rw (take_out-put (some t) k) refl

read_token : ℕ → Text → Outcome Exn Claims
unfolding take_out
read_token now [] = raise jwt empty_text
read_token now (exp ∷ k) =
    if ltb exp now
    then raise jwt (codes "expired")
    else ok (record { sub = (take_out k).0; role = (take_out (take_out k).1).0; exp = exp })

write_token : Claims → Text
unfolding put
write_token c = c.exp ∷ put c.sub (put c.role [])

read_token-write_token :
    (now : ℕ) (c : Claims) → now ≤ c.exp → read_token now (write_token c) ≡ ok c
unfolding read_token write_token
read_token-write_token now c h =
    let e : ltb c.exp now ≡ false = ground arith in
    rw (e, take_out-put c.sub (put c.role []), take_out-put c.role []) refl

read_token-expired :
    (now : ℕ) (c : Claims)
    → c.exp < now
    → (e : Exn) × (read_token now (write_token c) ≡ err e) × (is_instance e jwt ≡ true)
unfolding read_token write_token is_subclass
read_token-expired now c h =
    let e : ltb c.exp now ≡ true = ground arith in
    (record { cls = jwt; message = codes "expired" }, rw e refl, refl)

abbrev open_tokens : Jwt
open_tokens = record {
  encode = λ c k a. write_token c;
  decode = λ now t k a. read_token now t;
  decode-encode = λ now c k a h. read_token-write_token now c h;
  decode-expired = λ now c k a h. read_token-expired now c h;
}

login-IsToken_example :
    (out : TokenOut) × (login open_tokens default_settings plain_passwords user_table 50
        (codes "root")
        (codes "pw")
        one_user
      ≡ ok out)
    × IsToken open_tokens default_settings (codes "u1") (codes "admin") 50 out.access_token
unfolding authenticate get_by_username find_in to_domain make_user ◌==◌ verify_password
login-IsToken_example =
    login-IsToken open_tokens default_settings plain_passwords user_table 50 (codes "root")
      (codes "pw") one_user admin refl

abbrev token : Text
token = create_access_token open_tokens default_settings 50 (codes "u1") (codes "user") (some 60)

refresh_token-IsToken_example :
    (70 ≤ 50 + 60 * 60
      → (out : TokenOut) × (refresh_token open_tokens default_settings 70 (some token) ≡ ok out)
        × IsToken open_tokens default_settings (codes "u1") (codes "user") 70 out.access_token)
    × (50 + 60 * 60 < 70
        → refresh_token open_tokens default_settings 70 (some token)
          ≡ raise (http 401) (codes "invalid or expired token"))
unfolding create_access_token write_token
refresh_token-IsToken_example =
    refresh_token-IsToken open_tokens default_settings 50 70 (codes "u1") (codes "user") refl refl
      refl

abbrev app : Handler
app q c = (raise parse (codes "bad"), record c { clock = c.clock + 7 })

abbrev request : Request
request = record { method = codes "GET"; path = codes "/x"; headers = [] }

abbrev scope : Scope
scope = record { request_id = none; in_progress = 2; observed = []; access = []; clock = 100 }

abbrev inner : Scope
inner = record (inc_inprogress scope) { request_id = some (codes "r1") }

abbrev served : Reply × Scope
served = serve (λ e. empty_text) default_settings (codes "r1") app request scope

serve-IsServed_example :
    IsServed (λ e. empty_text) default_settings request scope (app request inner) served
    × (lookup (codes "x-request-id") served.0.headers ≡ some (codes "r1"))
    × (served.1.in_progress ≡ 2)
    × ((l : AccessLine) × (served.1.access ≡ l ∷ (app request inner).1.access)
        × (l.trace_id ≡ codes "-"))
unfolding lookup
serve-IsServed_example =
    serve-IsServed (λ e. empty_text) default_settings (codes "r1") app request scope refl refl
      (λ d. refl) (λ d. refl)

-- every route refuses
abbrev refusing : Handler
refusing q c = (raise (http 404) (codes "source not found"), c)

serve-IsRefused_example :
    IsRefused
      (codes "r1")
      request
      scope
      inner
      404
      (codes "source not found")
      (λ e. empty_text)
      default_settings
      (serve
        (λ e. empty_text)
        default_settings
        (codes "r1")
        (application (λ e. []) (λ q. none) refusing)
        request
        scope)
unfolding lookup
serve-IsRefused_example =
    serve-IsRefused (λ e. []) (λ q. none) refusing request (λ e. empty_text) default_settings
      (codes "r1") scope inner 404 (codes "source not found") refl refl
      (record { same_id = λ d. refl; same_gauge = λ d. refl }) refl refl
