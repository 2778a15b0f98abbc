-- ===== src/Core/Settings.antt =====
-- core/settings.py. `lower` is `str.lower`.
use mini_agent_go.Prelude.{
  ℕ, ◌≡◌, ◌≢◌, Bool, true, false, ◌&&◌, ◌||◌, Option, none, some, arith, if◌then◌else◌, Text, codes,
  empty_text, ◌==◌, eq_iff, Outcome, ok, err, ◌++◌,
}
use mini_agent_go.Core.Exceptions.{Exn, runtime_error, raise}

pub record Settings : Type 0 where
  pub app_env : Text
  pub log_level : Text
  pub database_url : Text
  pub redis_url : Text
  pub secret_key : Text
  pub jwt_algorithm : Text
  pub access_token_ttl_min : ℕ
  pub llm_provider : Text
  pub openai_api_key : Text
  pub openai_model : Text
  pub anthropic_api_key : Text
  pub anthropic_model : Text
  pub ollama_base_url : Text
  pub ollama_model : Text
  pub enable_telemetry : Bool
  pub otlp_endpoint : Text
  pub rate_limit_per_minute : ℕ
  pub plugin_dir : Text
  pub legal_notice_file : Text
  pub health_check_fail_threshold : ℕ
  pub seed_users : Text

abbrev pub default_settings : Settings
default_settings = record {
  app_env = codes "development";
  log_level = codes "INFO";
  database_url = codes "sqlite+aiosqlite:///:memory:";
  redis_url = codes "redis://localhost:6379/0";
  secret_key = codes "change-me";
  jwt_algorithm = codes "HS256";
  access_token_ttl_min = 60;
  llm_provider = codes "openai";
  openai_api_key = empty_text;
  openai_model = codes "gpt-4o-mini";
  anthropic_api_key = empty_text;
  anthropic_model = codes "claude-3-5-sonnet-20240620";
  ollama_base_url = codes "http://localhost:11434";
  ollama_model = codes "llama3";
  enable_telemetry = false;
  otlp_endpoint = empty_text;
  rate_limit_per_minute = 120;
  plugin_dir = codes "./plugins";
  legal_notice_file = codes "./config/legal_notice.md";
  health_check_fail_threshold = 3;
  seed_users = empty_text;
}

module _ (lower : Text → Text) where
  unfoldable pub is_production : Settings → Bool
  is_production s =
      let env = lower s.app_env in
      env == codes "production" || (env == codes "prod" || env == codes "staging")

  -- The body of `get_settings`, on what the environment gives.
  unfoldable pub load_settings : Settings → Outcome Exn Settings
  unfolding is_production
  load_settings s =
      if is_production s && (s.secret_key == codes "change-me")
      then raise runtime_error (
          codes "TV_LIST_SECRET_KEY is required in non-dev environment; "
          ++ codes "refusing to start with the default placeholder.")
      else ok s

  abbrev keep : Outcome Exn Settings → Option Settings → Outcome Exn Settings × Option Settings
  keep (ok s) cache = (ok s, some s)
  keep (err e) cache = (err e, cache)

  -- `lru_cache(maxsize=1)`: the first success is kept, a failure is not.
  unfoldable pub get_settings : Settings → Option Settings → Outcome Exn Settings × Option Settings
  unfolding load_settings
  get_settings env none = keep (load_settings env) none
  get_settings env (some s) = (ok s, some s)

  -- Whatever `get_settings` keeps or returns from an empty cache is not a production
  -- configuration with the placeholder key.
  pub get_settings-not-placeholder :
      (env s : Settings)
      → (get_settings env none).0 ≡ ok s
      → is_production s ≡ true
      → s.secret_key ≢ codes "change-me"
  unfolding get_settings
  get_settings-not-placeholder env s h p e =
      ground (arith, eq_iff env.secret_key (codes "change-me"))

unfoldable pub reset_settings_cache : Option Settings → Option Settings
reset_settings_cache c = none
