-- ===== src/Infra/Browser/Contexts.antt =====
-- Which contexts and drivers a fetch leaves open.
use mini_agent_go.Prelude.{ℕ, ◌+◌, ◌≡◌, refl, true, Option, arith, Text, Outcome, ok, err}
use mini_agent_go.Prelude.Dict.{Dict}
use mini_agent_go.Core.Exceptions.{Exn}
use mini_agent_go.Infra.Http.{FetchResult}
use mini_agent_go.Infra.Browser.{
  Driver, Scraper, ensure, fetch, closed, on_page, in_context, ensured, visited, fetched, waited,
  awaited,
}

module _ (driver : Driver) (encode : Text → Text) where
  open driver use {World, new_context, new_page}

  -- how many contexts a fetch leaves open, by how its page opened
  pub left_open : Outcome Exn (Unit {0}) × World → ℕ
  left_open (err e, w) = 1
  left_open (ok u, w) = 0

  -- a result has the URL that was asked for, and the status 200
  pub IsReported : Text → Outcome Exn FetchResult → Type 0
  IsReported url (err e) = Unit
  IsReported url (ok f) = (f.status_code ≡ 200) × (f.url ≡ url)

  -- What a fetch leaves behind, when the browser is running and a context is open.
  pub record IsLeft (url : Text) (s : Scraper driver encode) (w : World)
      (r : Outcome Exn FetchResult × Scraper driver encode) : Type 0 where
    -- a page that opens is closed with its context, whatever fails after that
    pub contexts_left : r.1.contexts ≡ s.contexts + left_open (new_page w)
    pub drivers_kept : r.1.drivers ≡ s.drivers
    -- the reply's own status is never looked at
    pub reported : IsReported url r.0

  fetched-IsReported :
      (url : Text) (since : ℕ) (p : Outcome Exn Text × World)
      → IsReported url (fetched driver encode url since p).0
  unfolding fetched IsReported
  fetched-IsReported url since (err e, w) = tt
  fetched-IsReported url since (ok b, w) = (refl, refl)

  waited-IsReported :
      (url : Text) (since : ℕ) (p : Outcome Exn (Unit {0}) × World)
      → IsReported url (waited driver encode url since p).0
  unfolding waited IsReported
  waited-IsReported url since (err e, w) = tt
  waited-IsReported url since (ok u, w) = fetched-IsReported url since (driver.content w)

  visited-IsReported :
      (url : Text) (wait : Option Text) (ms since : ℕ) (p : Outcome Exn (Unit {0}) × World)
      → IsReported url (visited driver encode url wait ms since p).0
  unfolding visited IsReported
  visited-IsReported url wait ms since (err e, w) = tt
  visited-IsReported url wait ms since (ok u, w) =
      waited-IsReported url since (awaited driver encode wait ms w)

  on_page-IsLeft :
      (url : Text) (timeout : ℕ) (wait : Option Text) (s : Scraper driver encode) (n : ℕ)
      (p : Outcome Exn (Unit {0}) × World)
      → s.contexts ≡ n + 1
      → let r = on_page driver encode url timeout wait s p in
        (r.1.contexts ≡ n + left_open p) × (r.1.drivers ≡ s.drivers) × IsReported url r.0
  unfolding on_page closed left_open IsReported
  on_page-IsLeft url timeout wait s n (err e, w) h = (h, refl, tt)
  on_page-IsLeft url timeout wait s n (ok u, w) h = (
    omega arith,
    refl,
    visited-IsReported url wait s.timeout_ms (driver.now w) (driver.goto url timeout w),
  )

  fetch-on_page :
      (url : Text) (headers : Dict Text) (timeout : ℕ) (wait : Option Text)
      (s : Scraper driver encode) (w : World)
      → s.has_browser ≡ true
      → new_context headers s.world ≡ (ok tt, w)
      → fetch driver encode url headers timeout wait s
        ≡ on_page driver encode url timeout wait
            (record s { contexts = s.contexts + 1; world = w })
            (new_page w)
  unfolding fetch ensure ensured in_context
  fetch-on_page url headers timeout wait s w b c = rw (b, c) refl

  -- A fetch with a running browser that opens a context closes it again, whether the page loads or
  -- not, unless the page cannot be opened at all: then the context stays open. No driver is
  -- started or stopped, and a result has the URL that was asked for and always the status 200.
  pub fetch-IsLeft :
      (url : Text) (headers : Dict Text) (timeout : ℕ) (wait : Option Text)
      (s : Scraper driver encode) (w : World)
      → s.has_browser ≡ true
      → new_context headers s.world ≡ (ok tt, w)
      → IsLeft url s w (fetch driver encode url headers timeout wait s)
  fetch-IsLeft url headers timeout wait s w b c =
      let opened : Scraper driver encode = record s { contexts = s.contexts + 1; world = w } in
      let left = on_page-IsLeft url timeout wait opened s.contexts (new_page w) refl in
      rw (fetch-on_page url headers timeout wait s w b c)
        (record { contexts_left = left.0; drivers_kept = left.1; reported = left.2 })
