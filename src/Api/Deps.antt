-- ===== src/Api/Deps.antt =====
-- interfaces/api/deps.py. `create_engine` is `create_async_engine` with the URL of the settings, and
-- `sessionmaker` is `async_sessionmaker`; a session of a factory is made and closed by the framework.
use mini_agent_go.Prelude.{◌≡◌, refl, Option, none, some}

-- `_engine` and `_session_factory`
pub record Deps (Engine Factory : Type 0) : Type 0 where
  pub engine : Option Engine
  pub session_factory : Option Factory

-- `reset_deps`
unfoldable pub reset_deps : {Engine Factory : Type 0} → Deps Engine Factory → Deps Engine Factory
reset_deps d = record { engine = none; session_factory = none }

-- `get_source_repo`, `get_program_repo` and `get_job_repo`: what the application's state has, if
-- anything, or a repository of the session
unfoldable pub get_repo : {Session Repo : Type 0} → (Session → Repo) → Option Repo → Session → Repo
get_repo repo none session = repo session
get_repo repo (some injected) session = injected

module _ {Engine Factory W : Type 0} (create_engine : W → Engine × W)
    (sessionmaker : Engine → Factory) where
  engine_or : Option Engine → Deps Engine Factory → W → Engine × (Deps Engine Factory × W)
  engine_or (some e) d w = (e, (d, w))
  engine_or none d w = let (e, w') = create_engine w in (e, (record d { engine = some e }, w'))

  unfoldable pub get_or_create_engine : Deps Engine Factory → W → Engine × (Deps Engine Factory × W)
  unfolding engine_or
  get_or_create_engine d w = engine_or d.engine d w

  factory_or : Option Factory → Deps Engine Factory → W → Factory × (Deps Engine Factory × W)
  unfolding get_or_create_engine
  factory_or (some f) d w = (f, (d, w))
  factory_or none d w =
      let (e, (d', w')) = get_or_create_engine d w in
      let f = sessionmaker e in (f, (record d' { session_factory = some f }, w'))

  unfoldable pub get_or_create_session_factory :
      Deps Engine Factory → W → Factory × (Deps Engine Factory × W)
  unfolding factory_or
  get_or_create_session_factory d w = factory_or d.session_factory d w

  -- the factory of `get_session`: the one of the application's state, if there is one
  unfoldable pub get_session :
      Option Factory → Deps Engine Factory → W → Factory × (Deps Engine Factory × W)
  unfolding get_or_create_session_factory
  get_session (some f) d w = (f, (d, w))
  get_session none d w = get_or_create_session_factory d w

  -- Every later session comes from the same factory, and nothing is created for it.
  pub get_session-again :
      (injected : Option Factory) (d : Deps Engine Factory) (w later : W)
      → let (f, (d', w')) = get_session injected d w in
        get_session injected d' later ≡ (f, (d', later))
  unfolding get_session get_or_create_session_factory factory_or
  get_session-again (some f) d w later = refl
  get_session-again none d w later = go d.session_factory
    where
      go :
          (o : Option Factory)
          → let (f, (d', w')) = factory_or o (record d { session_factory = o }) w in
            factory_or d'.session_factory d' later ≡ (f, (d', later))
      go (some f) = refl
      go none = refl
