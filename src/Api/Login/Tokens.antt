-- ===== src/Api/Login/Tokens.antt =====
-- What a token of a login lets its holder do, and for how long.
use mini_agent_go.Prelude.{
  ℕ, zero, suc, ◌+◌, ◌*◌, ◌≤◌, ◌<◌, ◌≡◌, refl, ap, false, ◌||◌, none, some, [], ◌∷◌, if◌then◌else◌,
  Text, codes, is_empty, or_text, ◌==◌, ok,
}
use mini_agent_go.Core.Exceptions.{raise, http}
use mini_agent_go.Core.Settings.{Settings}
use mini_agent_go.Domain.Models.{User}
use mini_agent_go.Infra.Table.{Table}
use mini_agent_go.Infra.Users.{UserRow, UserColumn, user_cell}
use mini_agent_go.Services.Auth.{Passwords, authenticate}
use mini_agent_go.Api.Security.{
  Jwt, Claims, create_access_token, decode_token, require_role, ttl_or,
}
use mini_agent_go.Api.Login.{TokenOut, login, issued, refresh_token}

module _ (jose : Jwt) (s : Settings) where
  -- when a token that is made now runs out
  abbrev expiry : ℕ → ℕ
  expiry now = now + 60 * s.access_token_ttl_min

  abbrev pub claims_of : Text → Text → ℕ → Claims
  claims_of sub role now = record { sub = some sub; role = some role; exp = expiry now }

  ttl_or-same : (n : ℕ) → ttl_or (some n) n ≡ n
  ttl_or-same zero = refl
  ttl_or-same (suc n) = refl

  create-encode :
      (now : ℕ) (sub role : Text)
      → create_access_token jose s now sub role (some s.access_token_ttl_min)
        ≡ jose.encode (claims_of sub role now) s.secret_key s.jwt_algorithm
  unfolding create_access_token
  create-encode now sub role =
      ap
        (λ (n : ℕ).
          jose.encode (record { sub = some sub; role = some role; exp = now + 60 * n }) s.secret_key
            s.jwt_algorithm)
        (ttl_or-same s.access_token_ttl_min)

  -- what a token of the program lets through, at each time
  abbrev pub IsToken : Text → Text → ℕ → Text → Type 0
  IsToken sub role now token =
      (required : Text) (later : ℕ)
      → (later ≤ expiry now
          → require_role jose s required later token ≡ (
              if role == required || (role == codes "admin")
              then ok (claims_of sub role now)
              else raise (http 403) (codes "insufficient role")))
        × (expiry now < later
            → require_role jose s required later token ≡ raise (http 401) (codes "invalid token"))

  create_access_token-IsToken :
      (now : ℕ) (sub role : Text)
      → IsToken sub role now (create_access_token jose s now sub role (some s.access_token_ttl_min))
  unfolding require_role
  create_access_token-IsToken now sub role required later = rw (create-encode now sub role) (
    (λ h.
        rw (jose.decode-encode later (claims_of sub role now) s.secret_key s.jwt_algorithm h) refl),
    (λ h.
        let (e, refused, is_jwt) =
          jose.decode-expired later (claims_of sub role now) s.secret_key s.jwt_algorithm h in
        rw (refused, is_jwt) refl),
  )

  or_text-real : (t d : Text) → is_empty t ≡ false → or_text t d ≡ t
  or_text-real [] d h = cc
  or_text-real (c ∷ t) d h = refl

  decode_token-fresh :
      (before now : ℕ) (sub role : Text)
      → now ≤ expiry before
      → decode_token jose s now
          (create_access_token jose s before sub role (some s.access_token_ttl_min))
        ≡ ok (some (claims_of sub role before))
  unfolding decode_token
  decode_token-fresh before now sub role h =
      rw
        (
          create-encode before sub role,
          jose.decode-encode now (claims_of sub role before) s.secret_key s.jwt_algorithm h,
        )
        refl

  decode_token-expired :
      (before now : ℕ) (sub role : Text)
      → expiry before < now
      → decode_token jose s now
          (create_access_token jose s before sub role (some s.access_token_ttl_min))
        ≡ ok none
  unfolding decode_token
  decode_token-expired before now sub role h =
      let (e, refused, is_jwt) =
        jose.decode-expired now (claims_of sub role before) s.secret_key s.jwt_algorithm h in
      rw (create-encode before sub role, refused, is_jwt) refl

  -- A login with a name and a password that `authenticate` accepts gives a token for that user: until
  -- it expires, it passes `require_role` exactly for the user's role and, if that is "admin", for
  -- every role, and is refused with 403 otherwise; after that, it is refused with 401.
  pub login-IsToken :
      (pwd : Passwords) (table : Table UserRow UserColumn user_cell) (now : ℕ)
      (username password : Text) (st : table.Store) (u : User)
      → authenticate pwd table username password st ≡ ok (some u)
      → (out : TokenOut) × (login jose s pwd table now username password st ≡ ok out)
        × IsToken u.id u.role now out.access_token
  unfolding login
  login-IsToken pwd table now username password st u h =
      let token = create_access_token jose s now u.id u.role (some s.access_token_ttl_min) in
      (
        record { access_token = token; token_type = codes "bearer" },
        rw (h, issued) refl,
        create_access_token-IsToken now u.id u.role,
      )

  -- A token that was made at `before` for a user with an id and a role, and has not expired, is
  -- refreshed to one for the same id and role that lasts from now, whatever became of the user. An
  -- expired one is refused with 401.
  pub refresh_token-IsToken :
      (before now : ℕ) (sub role : Text)
      → is_empty sub ≡ false
      → is_empty role ≡ false
      → let token = create_access_token jose s before sub role (some s.access_token_ttl_min) in
        is_empty token ≡ false
        → (now ≤ before + 60 * s.access_token_ttl_min
            → (out : TokenOut) × (refresh_token jose s now (some token) ≡ ok out)
              × IsToken sub role now out.access_token)
          × (before + 60 * s.access_token_ttl_min < now
              → refresh_token jose s now (some token)
                ≡ raise (http 401) (codes "invalid or expired token"))
  unfolding refresh_token
  refresh_token-IsToken before now sub role real_sub real_role real = (
    (λ h. (
      record {
        access_token = create_access_token jose s now sub role (some s.access_token_ttl_min);
        token_type = codes "bearer";
      },
      rw
          (
            real,
            decode_token-fresh before now sub role h,
            real_sub,
            or_text-real role (codes "user") real_role,
          )
          refl,
      create_access_token-IsToken now sub role,
    )),
    (λ h. rw (real, decode_token-expired before now sub role h) refl),
  )
