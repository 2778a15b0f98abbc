-- ===== src/Tests/PluginRuns.antt =====
-- Runs of the parsers and of the registry.
use mini_agent_go.Prelude.{ℕ, ◌+◌, some, length, Text, codes, decimal, ok}
use mini_agent_go.Domain.Models.{Json, null}
use mini_agent_go.Plugins.Base.{Env}
use mini_agent_go.Plugins.M3u.{parse_m3u}
use mini_agent_go.Plugins.M3u.Keys.{SameResult, parse_m3u-same}
use mini_agent_go.Plugins.Registry.{PluginRegistry, empty_registry, register_source}

-- a library whose JSON documents all hold the value `v`
abbrev library : Json → Env
library v = record {
  lower = λ t. t;
  isoformat = decimal;
  sha1 = λ t. t;
  fromisoformat = λ t. some (length t);
  loads = λ t. ok v;
  repr = λ j. codes "?";
  decode = λ t. t;
}

abbrev listing : Text
listing = codes "#EXTM3U\n#EXTINF:-1 tvg-id=\"c1\",One\nhttp://a/\n"

parse_m3u-same_example :
    SameResult
      (parse_m3u (library null) 5 decimal listing (codes "s1"))
      (parse_m3u (library null) 900 (λ n. codes "x") listing (codes "s1"))
parse_m3u-same_example =
    parse_m3u-same (library null) 5 900 decimal (λ n. codes "x") (codes "s1") listing

abbrev registry : PluginRegistry ℕ ℕ ℕ
registry = register_source (codes "rss") (λ w. w + 1) empty_registry
