-- ===== src/Tests/BrowserRuns.antt =====
-- Runs of the browser's fetcher.
use mini_agent_go.Prelude.{
  ℕ, ◌+◌, ◌≡◌, refl, Bool, true, false, none, [], if◌then◌else◌, Text, codes, ok,
}
use mini_agent_go.Core.Exceptions.{transient, raise}
use mini_agent_go.Infra.Browser.{Driver, Scraper, fetch}
use mini_agent_go.Infra.Browser.Contexts.{IsLeft, fetch-IsLeft}

-- A browser whose page opens if `opens`, and whose visits fail; its world is a clock.
abbrev chromium : Bool → Driver
chromium opens = record {
  World = ℕ;
  start = λ w. (ok tt, w + 1);
  launch = λ h w. (ok tt, w + 1);
  new_context = λ h w. (ok tt, w + 1);
  new_page = λ w. if opens then (ok tt, w + 1) else (raise transient (codes "crashed"), w + 1);
  goto = λ url t w. (raise transient (codes "timeout"), w + t);
  wait_for_selector = λ s t w. (ok tt, w + 1);
  content = λ w. (ok (codes "<html>"), w);
  close_context = λ w. w + 1;
  close_browser = λ w. w + 1;
  stop = λ w. w + 1;
  now = λ w. w;
}

abbrev warm : (opens : Bool) → Scraper (chromium opens) (λ t. t)
warm opens = record {
  headless = true;
  timeout_ms = 30000;
  has_driver = true;
  has_browser = true;
  drivers = 1;
  contexts = 0;
  world = 10;
}

abbrev page : Text
page = codes "https://tv.example/epg"

fetch-IsLeft_example :
    IsLeft
      (chromium false)
      (λ t. t)
      page
      (warm false)
      11
      (fetch (chromium false) (λ t. t) page [] 5000 none (warm false))
fetch-IsLeft_example =
    fetch-IsLeft (chromium false) (λ t. t) page [] 5000 none (warm false) 11 refl refl

-- one context is left open when the page cannot be opened, and none when the visit fails
leaks :
    ((fetch (chromium false) (λ t. t) page [] 5000 none (warm false)).1.contexts ≡ 1)
    × ((fetch (chromium true) (λ t. t) page [] 5000 none (warm true)).1.contexts ≡ 0)
unfolding fetch
leaks = (refl, refl)
