-- ===== src/Infra/Browser.antt =====
-- infrastructure/http/playwright_fetcher.py. `Driver` is what Playwright does; how many drivers and
-- contexts are open is counted here. `encode` is `str.encode("utf-8")`, and times are milliseconds.
pub mod Contexts
use mini_agent_go.Prelude.{
  ℕ, zero, suc, ◌+◌, ◌-◌, ◌*◌, ◌/◌, ◌%◌, ◌≤◌, ◌<◌, ◌≡◌, refl, sym, ap, ◌∙◌, ◌≢◌, ◌↔◌, ◌⊎◌, inl, inr,
  Bool, true, false, not, ◌&&◌, ◌||◌, Option, none, some, List, [], ◌∷◌, ◌++◌, map, arith, ltb, leb,
  eqb, if◌then◌else◌, eqb_iff, Bool-cases, Option-cases, is_some, get_or, length, take, filter, all,
  find, All, length-append, length-filter, length-take, length-map, All-append, Text, codes,
  empty_text, is_empty, or_text, some_text, all_text, count, append-nil, append_assoc, All-take,
  All-filter, All-not_counted, All-implied, All-both, count-append, count-filter,
  length-filter-count, ◌==◌, decimal, eq_iff, eq_refl, eq-false, eq_sym, Outcome, ok, err, ◌>>=◌,
  >>=-eq-ok,
}
use mini_agent_go.Prelude.Dict.{Dict}
use mini_agent_go.Core.Exceptions.{Exn}
use mini_agent_go.Infra.Http.{FetchResult}

pub record Driver : Type 1 where
  pub World : Type 0
  -- `async_playwright().start()` and `chromium.launch`
  pub start : World → Outcome Exn (Unit {0}) × World
  pub launch : Bool → World → Outcome Exn (Unit {0}) × World
  pub new_context : Dict Text → World → Outcome Exn (Unit {0}) × World
  pub new_page : World → Outcome Exn (Unit {0}) × World
  pub goto : Text → ℕ → World → Outcome Exn (Unit {0}) × World
  pub wait_for_selector : Text → ℕ → World → Outcome Exn (Unit {0}) × World
  pub content : World → Outcome Exn Text × World
  pub close_context : World → World
  pub close_browser : World → World
  pub stop : World → World
  -- `time.monotonic`
  pub now : World → ℕ

module _ (driver : Driver) (encode : Text → Text) where
  open driver use {
    World, start, launch, new_context, new_page, goto, wait_for_selector, content, now,
  }

  -- `self._pw` and `self._browser` are set or `None`; `drivers` were started and not stopped,
  -- `contexts` opened and not closed
  pub record Scraper : Type 0 where
    pub headless : Bool
    pub timeout_ms : ℕ
    pub has_driver : Bool
    pub has_browser : Bool
    pub drivers : ℕ
    pub contexts : ℕ
    pub world : World

  -- `PlaywrightFetcher()`
  unfoldable pub new_scraper : World → Scraper
  new_scraper w = record {
    headless = true;
    timeout_ms = 30000;
    has_driver = false;
    has_browser = false;
    drivers = 0;
    contexts = 0;
    world = w;
  }

  launched : Scraper → Outcome Exn (Unit {0}) × World → Outcome Exn (Unit {0}) × Scraper
  launched s (err e, w) = (err e, record s { world = w })
  launched s (ok u, w) = (ok tt, record s { has_browser = true; world = w })

  started : Scraper → Outcome Exn (Unit {0}) × World → Outcome Exn (Unit {0}) × Scraper
  unfolding launched
  started s (err e, w) = (err e, record s { world = w })
  started s (ok u, w) =
      launched (record s { has_driver = true; drivers = s.drivers + 1; world = w })
        (launch s.headless w)

  -- `_ensure`
  unfoldable pub ensure : Scraper → Outcome Exn (Unit {0}) × Scraper
  unfolding started
  ensure s = if s.has_browser then (ok tt, s) else started s (start s.world)

  -- the body of the `try`, from the time at which it began
  fetched : Text → ℕ → Outcome Exn Text × World → Outcome Exn FetchResult × World
  fetched url since (err e, w) = (err e, w)
  fetched url since (ok body, w) = (
    ok (record {
      url = url;
      status_code = 200;
      body = encode body;
      headers = [];
      elapsed_ms = now w - since;
    }),
    w,
  )

  waited : Text → ℕ → Outcome Exn (Unit {0}) × World → Outcome Exn FetchResult × World
  unfolding fetched
  waited url since (err e, w) = (err e, w)
  waited url since (ok u, w) = fetched url since (content w)

  awaited : Option Text → ℕ → World → Outcome Exn (Unit {0}) × World
  awaited none ms w = (ok tt, w)
  awaited (some []) ms w = (ok tt, w)
  awaited (some (c ∷ s)) ms w = wait_for_selector (c ∷ s) ms w

  visited :
      Text → Option Text → ℕ → ℕ → Outcome Exn (Unit {0}) × World → Outcome Exn FetchResult × World
  unfolding waited awaited
  visited url wait_selector ms since (err e, w) = (err e, w)
  visited url wait_selector ms since (ok u, w) = waited url since (awaited wait_selector ms w)

  -- the `finally`
  closed : Scraper → Outcome Exn FetchResult × World → Outcome Exn FetchResult × Scraper
  closed s (r, w) = (r, record s { contexts = s.contexts - 1; world = driver.close_context w })

  on_page :
      Text
      → ℕ
      → Option Text
      → Scraper
      → Outcome Exn (Unit {0}) × World
      → Outcome Exn FetchResult × Scraper
  unfolding visited closed
  on_page url timeout wait_selector s (err e, w) = (err e, record s { world = w })
  on_page url timeout wait_selector s (ok u, w) =
      closed s (visited url wait_selector s.timeout_ms (now w) (goto url timeout w))

  in_context :
      Text
      → ℕ
      → Option Text
      → Scraper
      → Outcome Exn (Unit {0}) × World
      → Outcome Exn FetchResult × Scraper
  unfolding on_page
  in_context url timeout wait_selector s (err e, w) = (err e, record s { world = w })
  in_context url timeout wait_selector s (ok u, w) =
      on_page url timeout wait_selector (record s { contexts = s.contexts + 1; world = w })
        (new_page w)

  ensured :
      Text
      → Dict Text
      → ℕ
      → Option Text
      → Outcome Exn (Unit {0}) × Scraper
      → Outcome Exn FetchResult × Scraper
  unfolding in_context
  ensured url headers timeout wait_selector (err e, s) = (err e, s)
  ensured url headers timeout wait_selector (ok u, s) =
      in_context url timeout wait_selector s (new_context headers s.world)

  -- `headers` is empty where the source has `None`, and `timeout` is in milliseconds
  unfoldable pub fetch :
      Text → Dict Text → ℕ → Option Text → Scraper → Outcome Exn FetchResult × Scraper
  unfolding ensured ensure
  fetch url headers timeout wait_selector s = ensured url headers timeout wait_selector (ensure s)

  -- `aclose`; neither field is set to `None`
  unfoldable pub aclose : Scraper → Scraper
  aclose s =
      let w = if s.has_browser then driver.close_browser s.world else s.world in
      if s.has_driver
      then record s { drivers = s.drivers - 1; world = driver.stop w }
      else record s { world = w }
