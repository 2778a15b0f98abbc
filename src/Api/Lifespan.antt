-- ===== src/Api/Lifespan.antt =====
-- `lifespan` of interfaces/api/app.py: what is done to the database at start-up, and the shutdown. Each
-- step is a call that may fail, on a world; `env` is `os.environ.get`.
use mini_agent_go.Prelude.{
  ◌≡◌, refl, ap, ◌∙◌, Bool, not, ◌&&◌, Option, List, [], ◌∷◌, ◌++◌, if◌then◌else◌, get_or, Text,
  codes, some_text, ◌==◌, Outcome, ok, err,
}
use mini_agent_go.Core.Exceptions.{Exn}
use mini_agent_go.Core.Settings.{Settings, is_production}

-- a line of the log: the event, and the text of the exception of a warning
pub data Event : Type 0 where
  done : Text → Event
  warned : Text → Text → Event

abbrev pub Step : Type 0 → Type 0
Step W = W → Outcome Exn (Unit {0}) × W

-- the world with the log, the newest line first
pub record Running (W : Type 0) : Type 0 where
  pub world : W
  pub log : List Event

noted : {W : Type 0} → Text → List Event → List Event → Outcome Exn (Unit {0}) × W → Running W
noted failed success log (ok u, w) = record { world = w; log = success ++ log }
noted failed success log (err e, w) = record { world = w; log = warned failed e.message ∷ log }

-- `try: ... except Exception as e: log.warning(...)`, with the lines of a success
unfoldable pub attempted : {W : Type 0} → Step W → List Event → Text → Running W → Running W
unfolding noted
attempted step success failed r = noted failed success r.log (step r.world)

module _ (lower : Text → Text) (env : Text → Option Text) (s : Settings) where
  unfoldable pub bootstrap : Text
  unfolding is_production
  bootstrap =
      get_or (env (codes "TV_LIST_BOOTSTRAP_SCHEMA"))
        (if is_production lower s then codes "0" else codes "1")

  unfoldable pub auto_migrates : Bool
  auto_migrates = some_text (env (codes "TV_LIST_AUTO_MIGRATE")) == codes "1"

  unfoldable pub auto_seeds : Bool
  unfolding is_production
  auto_seeds =
      not (is_production lower s) && not (some_text (env (codes "TV_LIST_AUTO_SEED")) == codes "0")

  -- The steps on the database, in their order: the migrations, `create_all`, the users of the
  -- settings, and the sample data. Only the seeding of users can end the start-up.
  seeded :
      {W : Type 0}
      → Step W
      → Outcome Exn (Unit {0}) × Running W
      → Outcome Exn (Unit {0}) × Running W
  unfolding attempted auto_seeds
  seeded seed (err e, r) = (err e, r)
  seeded seed (ok u, r) = (
    ok tt,
    if auto_seeds
        then attempted seed (done (codes "app.auto_seed") ∷ []) (codes "app.auto_seed_failed") r
        else r,
  )

  unfoldable pub prepared : {W : Type 0} → Step W → Step W → Running W → Running W
  unfolding attempted auto_migrates bootstrap
  prepared migrate create_all r =
      let r1 =
        if auto_migrates
        then attempted migrate (done (codes "app.migrations_applied") ∷ [])
            (codes "app.migrations_skipped") r
        else r in
      if bootstrap == codes "1"
      then attempted create_all (done (codes "app.schema_bootstrapped") ∷ [])
          (codes "app.schema_bootstrap_failed") r1
      else r1

  with_users : {W : Type 0} → Step W → Running W → Outcome Exn (Unit {0}) × Running W
  with_users seed_users r = let (u, w) = seed_users r.world in (u, record r { world = w })

  unfoldable pub start_up :
      {W : Type 0}
      → Step W
      → Step W
      → Step W
      → Step W
      → Running W
      → Outcome Exn (Unit {0}) × Running W
  unfolding prepared seeded with_users
  start_up migrate create_all seed_users seed r =
      seeded seed (with_users seed_users (prepared migrate create_all r))

-- what is done after the `yield`
unfoldable pub shut_down : {W : Type 0} → Step W → Step W → Step W → Step W → Running W → Running W
unfolding attempted
shut_down sleep scheduler fetcher engine r =
    let r0 = record r { log = done (codes "app.shutdown") ∷ r.log } in
    let r1 = attempted sleep [] (codes "app.shutdown.sleep_failed") r0 in
    let r2 = attempted scheduler [] (codes "app.shutdown.scheduler_failed") r1 in
    let r3 = attempted fetcher [] (codes "app.shutdown.fetcher_failed") r2 in
    let r4 = attempted engine [] (codes "app.shutdown.engine_failed") r3 in
    record r4 { log = done (codes "app.shutdown_done") ∷ r4.log }

module _ {W : Type 0} where
  after : Step W → W → W
  after step w = (step w).1

  noted-world :
      (failed : Text) (success log : List Event) (x : Outcome Exn (Unit {0}) × W)
      → (noted failed success log x).world ≡ x.1
  unfolding noted
  noted-world failed success log (ok u, w) = refl
  noted-world failed success log (err e, w) = refl

  attempted-world :
      (step : Step W) (success : List Event) (failed : Text) (r : Running W)
      → (attempted step success failed r).world ≡ after step r.world
  unfolding attempted after
  attempted-world step success failed r = noted-world failed success r.log (step r.world)

  -- Whatever fails in the shutdown, the four steps are all run, in their order.
  shut_down-world :
      (sleep scheduler fetcher engine : Step W) (r : Running W)
      → (shut_down sleep scheduler fetcher engine r).world
        ≡ after engine (after fetcher (after scheduler (after sleep r.world)))
  unfolding shut_down
  shut_down-world sleep scheduler fetcher engine r =
      let r0 = record r { log = done (codes "app.shutdown") ∷ r.log } in
      let r1 = attempted sleep [] (codes "app.shutdown.sleep_failed") r0 in
      let r2 = attempted scheduler [] (codes "app.shutdown.scheduler_failed") r1 in
      let r3 = attempted fetcher [] (codes "app.shutdown.fetcher_failed") r2 in
      attempted-world engine [] (codes "app.shutdown.engine_failed") r3
      ∙ ap (after engine) (
          attempted-world fetcher [] (codes "app.shutdown.fetcher_failed") r2
          ∙ ap (after fetcher) (
              attempted-world scheduler [] (codes "app.shutdown.scheduler_failed") r1
              ∙ ap (after scheduler)
                  (attempted-world sleep [] (codes "app.shutdown.sleep_failed") r0)))
