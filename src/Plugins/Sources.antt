-- ===== src/Plugins/Sources.antt =====
-- plugins/sources/http_json_source.py, rss_source.py and html_scrape_source.py. The fetchers and
-- parsers that an adapter is built with are arguments, and `W` is what they work on; the dictionary
-- that a parser takes is its hint.
use mini_agent_go.Prelude.{
  Option, none, some, List, [], ◌∷◌, ◌++◌, if◌then◌else◌, Text, codes, is_empty, some_text, Outcome,
  ok, err,
}
use mini_agent_go.Prelude.Dict.{Dict, lookup}
use mini_agent_go.Core.Exceptions.{Exn, raise, value_error}
use mini_agent_go.Domain.Models.{Json, text, TvProgram, TvListSource}
use mini_agent_go.Infra.Http.{FetchResult}
use mini_agent_go.Services.Checks.{headers_or_none}

-- the URL, or the error of a source that has none
unfoldable pub fetch_url :
    {W : Type 0}
    → (Text → Option (Dict Text) → W → Outcome Exn FetchResult × W)
    → TvListSource
    → W
    → Outcome Exn FetchResult × W
fetch_url get s w =
    let url = some_text s.url in
    if is_empty url
    then (raise value_error (codes "source " ++ (s.id ++ codes " has no url")), w)
    else get url (headers_or_none s.headers) w

module _ {W : Type 0} (get : Text → Option (Dict Text) → W → Outcome Exn FetchResult × W)
    (parse : Text → Dict Text → W → Outcome Exn (List TvProgram) × W) where
  -- `HTTPSource`
  unfoldable pub http_fetch : TvListSource → W → Outcome Exn FetchResult × W
  unfolding fetch_url
  http_fetch = fetch_url get

  unfoldable pub http_parse : FetchResult → TvListSource → W → Outcome Exn (List TvProgram) × W
  http_parse r s = parse r.body ((codes "source_id", s.id) ∷ [])

  -- `RSSSource`
  unfoldable pub rss_fetch : TvListSource → W → Outcome Exn FetchResult × W
  unfolding fetch_url
  rss_fetch = fetch_url get

  unfoldable pub rss_parse : FetchResult → TvListSource → W → Outcome Exn (List TvProgram) × W
  rss_parse r s = parse r.body ((codes "source_id", s.id) ∷ (codes "format", codes "rss") ∷ [])

-- `source.config.get("wait_selector")`, if it is a text
abbrev wait_selector : Option Json → Option Text
wait_selector (some (text t)) = some t
wait_selector _ = none

module _ {W : Type 0} where
  -- `HTMLScrapeSource.fetch`, with the browser's `get`
  unfoldable pub scrape_fetch :
      (Option Text → Text → Option (Dict Text) → W → Outcome Exn FetchResult × W)
      → TvListSource
      → W
      → Outcome Exn FetchResult × W
  unfolding fetch_url lookup
  scrape_fetch get s = fetch_url (get (wait_selector (lookup (codes "wait_selector") s.config))) s

  -- a parser that raises, or finds nothing, leaves it to the next
  after_parser : (W → List TvProgram × W) → Outcome Exn (List TvProgram) × W → List TvProgram × W
  after_parser next (err e, w) = next w
  after_parser next (ok [], w) = next w
  after_parser next (ok (p ∷ ps), w) = (p ∷ ps, w)

  -- `HTMLScrapeSource.parse`, with its chain of parsers
  unfoldable pub scrape_parse :
      List (Text → Dict Text → W → Outcome Exn (List TvProgram) × W)
      → FetchResult
      → TvListSource
      → W
      → List TvProgram × W
  unfolding after_parser
  scrape_parse [] r s w = ([], w)
  scrape_parse (parse ∷ parsers) r s w =
      after_parser (scrape_parse parsers r s) (parse r.body ((codes "source_id", s.id) ∷ []) w)
