-- ===== src/Api/Login.antt =====
-- interfaces/api/routers/auth.py, with `RefreshOut` of schemas/auth.py.
pub mod Tokens
use mini_agent_go.Prelude.{
  ℕ, zero, suc, ◌+◌, ◌-◌, ◌*◌, ◌/◌, ◌%◌, ◌≤◌, ◌<◌, ◌≡◌, refl, sym, ap, ◌∙◌, ◌≢◌, ◌↔◌, ◌⊎◌, inl, inr,
  Bool, true, false, not, ◌&&◌, ◌||◌, Option, none, some, List, [], ◌∷◌, ◌++◌, map, arith, ltb, leb,
  eqb, if◌then◌else◌, eqb_iff, Bool-cases, Option-cases, is_some, get_or, length, take, filter, all,
  find, All, length-append, length-filter, length-take, length-map, All-append, Text, codes,
  empty_text, is_empty, or_text, some_text, all_text, ◌==◌, decimal, eq_iff, eq_refl, eq-false,
  eq_sym, Outcome, ok, err, ◌>>=◌, >>=-eq-ok,
}
use mini_agent_go.Core.Exceptions.{Exn, raise, http}
use mini_agent_go.Core.Settings.{Settings}
use mini_agent_go.Domain.Models.{User}
use mini_agent_go.Infra.Table.{Table}
use mini_agent_go.Infra.Users.{UserRow, UserColumn, user_cell}
use mini_agent_go.Services.Auth.{Passwords, authenticate}
use mini_agent_go.Api.Security.{Jwt, Claims, create_access_token, decode_token}

pub record TokenOut : Type 0 where
  pub access_token : Text
  pub token_type : Text

module _ (jose : Jwt) (s : Settings) where
  issued : ℕ → Outcome Exn (Option User) → Outcome Exn TokenOut
  unfolding create_access_token
  issued now (err e) = err e
  issued now (ok none) = raise (http 401) (codes "invalid credentials")
  issued now (ok (some u)) = ok (record {
    access_token = create_access_token jose s now u.id u.role (some s.access_token_ttl_min);
    token_type = codes "bearer";
  })

  -- `POST /auth/token`
  unfoldable pub login :
      (pwd : Passwords) (table : Table UserRow UserColumn user_cell)
      → ℕ
      → Text
      → Text
      → table.Store
      → Outcome Exn TokenOut
  unfolding issued
  login pwd table now username password st =
      issued now (authenticate pwd table username password st)

  renewed : ℕ → Claims → Outcome Exn TokenOut
  unfolding create_access_token
  renewed now c =
      let role = or_text (some_text c.role) (codes "user") in
      if is_empty (some_text c.sub)
      then raise (http 401) (codes "invalid token payload")
      else ok (record {
        access_token =
            create_access_token jose s now (some_text c.sub) role (some s.access_token_ttl_min);
        token_type = codes "bearer";
      })

  refreshed : ℕ → Outcome Exn (Option Claims) → Outcome Exn TokenOut
  unfolding renewed
  refreshed now (err e) = err e
  refreshed now (ok none) = raise (http 401) (codes "invalid or expired token")
  refreshed now (ok (some c)) = renewed now c

  -- `POST /auth/refresh`; the header may be missing
  unfoldable pub refresh_token : ℕ → Option Text → Outcome Exn TokenOut
  unfolding refreshed
  refresh_token now token =
      let t = some_text token in
      if is_empty t
      then raise (http 401) (codes "missing bearer token")
      else refreshed now (decode_token jose s now t)
