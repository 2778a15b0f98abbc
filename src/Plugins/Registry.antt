-- ===== src/Plugins/Registry.antt =====
-- plugins/registry.py, and `build_registry` of interfaces/api/app.py. `Source` is a source adapter,
-- `Parser` a parser; a factory is a function of what it draws on.
use mini_agent_go.Prelude.{
  ◌≡◌, refl, ap, ◌∙◌, Bool, true, false, Option, none, some, List, [], ◌++◌, if◌then◌else◌, Text,
  codes, ◌==◌, Outcome, ok,
}
use mini_agent_go.Prelude.Dict.{Dict, lookup, insert, keys, lookup-insert}
use mini_agent_go.Prelude.Sorted.{sorted_set}
use mini_agent_go.Core.Exceptions.{Exn, raise, key_error}

pub record PluginRegistry (World Source Parser : Type 0) : Type 0 where
  pub sources : Dict (World → Source)
  pub parsers : Dict Parser

module _ {World Source : Type 0} where
  built : Text → World → Option (World → Source) → Outcome Exn Source
  built type_name w none = raise key_error (codes "unknown source type: " ++ type_name)
  built type_name w (some factory) = ok (factory w)

  built-if :
      (k : Text) (w : World) (b : Bool) (factory : World → Source) (o : Option (World → Source))
      → built k w (if b then some factory else o) ≡ (if b then ok (factory w) else built k w o)
  unfolding built
  built-if k w true factory o = refl
  built-if k w false factory o = refl

module _ {World Source Parser : Type 0} where
  abbrev pub empty_registry : PluginRegistry World Source Parser
  empty_registry = record { sources = []; parsers = [] }

  unfoldable pub register_source :
      Text
      → (World → Source)
      → PluginRegistry World Source Parser
      → PluginRegistry World Source Parser
  register_source type_name factory r = record r { sources = insert type_name factory r.sources }

  unfoldable pub register_parser :
      Text → Parser → PluginRegistry World Source Parser → PluginRegistry World Source Parser
  register_parser name parser r = record r { parsers = insert name parser r.parsers }

  unfoldable pub build_source :
      Text → PluginRegistry World Source Parser → World → Outcome Exn Source
  unfolding built
  build_source type_name r w = built type_name w (lookup type_name r.sources)

  unfoldable pub get_parser : Text → PluginRegistry World Source Parser → Outcome Exn Parser
  get_parser name r = elim (lookup name r.parsers) [
    | none ↦ raise key_error (codes "unknown parser: " ++ name)
    | some parser ↦ ok parser
  ]

  -- `sorted(self._sources)`; the keys are distinct
  unfoldable pub list_source_types : PluginRegistry World Source Parser → List Text
  list_source_types r = sorted_set (keys r.sources)

  unfoldable pub list_parsers : PluginRegistry World Source Parser → List Text
  list_parsers r = sorted_set (keys r.parsers)

  -- The last source factory that was registered under a name is the one that is built; any other name
  -- builds what it built, and no parser changes.
  pub build_source-register_source :
      (name k : Text) (factory : World → Source) (r : PluginRegistry World Source Parser)
      (w : World)
      → (build_source k (register_source name factory r) w
          ≡ (if name == k then ok (factory w) else build_source k r w))
        × (get_parser k (register_source name factory r) ≡ get_parser k r)
  unfolding build_source register_source get_parser
  build_source-register_source name k factory r w = (
    ap (built k w) (lookup-insert name k factory r.sources)
        ∙ built-if k w (name == k) factory (lookup k r.sources),
    refl,
  )

-- `build_registry`, of the adapters that it makes
unfoldable pub build_registry :
    {World Source Parser : Type 0}
    → (World → Source)
    → (World → Source)
    → (World → Source)
    → (World → Source)
    → Parser
    → Parser
    → Parser
    → PluginRegistry World Source Parser
unfolding register_source register_parser
build_registry http rss html m3u json html_parser llm =
    let r1 = register_source (codes "http_json") http empty_registry in
    let r2 = register_source (codes "rss") rss r1 in
    let r3 = register_source (codes "html_scrape") html r2 in
    let r4 = register_source (codes "m3u") m3u r3 in
    let r5 = register_parser (codes "json") json r4 in
    let r6 = register_parser (codes "html") html_parser r5 in register_parser (codes "llm") llm r6
