-- ===== src/Api/Security.antt =====
-- interfaces/api/security.py. `Jwt` is what the program uses of python-jose, and `s` is what
-- `get_settings` returned; times are in seconds.
use mini_agent_go.Prelude.{
  ℕ, zero, suc, ◌+◌, ◌*◌, ◌≤◌, ◌<◌, ◌≡◌, Bool, true, false, ◌||◌, Option, none, some, if◌then◌else◌,
  Text, codes, ◌==◌, Outcome, ok, err,
}
use mini_agent_go.Core.Exceptions.{Exn, raise, is_instance, jwt, http}
use mini_agent_go.Core.Settings.{Settings}

-- the claims that the program writes and reads
pub record Claims : Type 0 where
  pub sub : Option Text
  pub role : Option Text
  pub exp : ℕ

pub record Jwt : Type 0 where
  -- `jwt.encode(payload, key, algorithm)`
  pub encode : Claims → Text → Text → Text
  -- `jwt.decode(token, key, algorithms=[algorithm])`, at a time
  pub decode : ℕ → Text → Text → Text → Outcome Exn Claims
  -- what was signed with the same key is read back until it expires, and refused after that
  pub decode-encode :
      (now : ℕ) (c : Claims) (key algorithm : Text)
      → now ≤ c.exp
      → decode now (encode c key algorithm) key algorithm ≡ ok c
  pub decode-expired :
      (now : ℕ) (c : Claims) (key algorithm : Text)
      → c.exp < now
      → (e : Exn) × (decode now (encode c key algorithm) key algorithm ≡ err e)
        × (is_instance e jwt ≡ true)

-- `ttl_min or s.access_token_ttl_min`
abbrev pub ttl_or : Option ℕ → ℕ → ℕ
ttl_or none d = d
ttl_or (some zero) d = d
ttl_or (some (suc n)) d = suc n

module _ (jose : Jwt) (s : Settings) where
  unfoldable pub create_access_token : ℕ → Text → Text → Option ℕ → Text
  create_access_token now sub role ttl_min =
      jose.encode
        (record {
          sub = some sub;
          role = some role;
          exp = now + 60 * ttl_or ttl_min s.access_token_ttl_min;
        })
        s.secret_key s.jwt_algorithm

  -- `except JWTError: return None`
  decoded : Outcome Exn Claims → Outcome Exn (Option Claims)
  decoded (ok c) = ok (some c)
  decoded (err e) = if is_instance e jwt then ok none else err e

  unfoldable pub decode_token : ℕ → Text → Outcome Exn (Option Claims)
  unfolding decoded
  decode_token now token = decoded (jose.decode now token s.secret_key s.jwt_algorithm)

  has_role : Text → Option Text → Bool
  has_role required none = false
  has_role required (some r) = r == required || (r == codes "admin")

  admitted : Text → Outcome Exn Claims → Outcome Exn Claims
  unfolding has_role
  admitted required (err e) =
      if is_instance e jwt then raise (http 401) (codes "invalid token") else err e
  admitted required (ok c) =
      if has_role required c.role then ok c else raise (http 403) (codes "insufficient role")

  -- the `_checker` that `require_role(required)` returns
  unfoldable pub require_role : Text → ℕ → Text → Outcome Exn Claims
  unfolding admitted
  require_role required now token =
      admitted required (jose.decode now token s.secret_key s.jwt_algorithm)
