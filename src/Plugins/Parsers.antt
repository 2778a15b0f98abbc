-- ===== src/Plugins/Parsers.antt =====
-- plugins/parsers/json_parser.py, llm_parser.py and html_parser.py. `now` is the clock.
use mini_agent_go.Prelude.{
  ℕ, Bool, true, false, not, Option, none, some, List, [], ◌∷◌, ◌++◌, eqb, if◌then◌else◌, take,
  Text, codes, empty_text, is_empty, Outcome, ok, err, ◌>>=◌,
}
use mini_agent_go.Core.Exceptions.{
  Exn, raise, is_instance, parse, attribute_error, json_decode, llm,
}
use mini_agent_go.Domain.Models.{
  Json, null, bool, number, text, array, object, Items, nil, cons, Members, end, member, TvProgram,
  Channel,
}
use mini_agent_go.Infra.Programs.{field, str}
use mini_agent_go.Plugins.Base.{Env, to_program, make_channel}

-- the truth value of a JSON value
abbrev pub truthy : Json → Bool
truthy null = false
truthy (bool b) = b
truthy (number b t) = b
truthy (text t) = not (is_empty t)
truthy (array nil) = false
truthy (array (cons v vs)) = true
truthy (object end) = false
truthy (object (member k v m)) = true

-- `a or b`, for values that may be missing
abbrev pub or_value : Option Json → Option Json → Option Json
or_value none d = d
or_value (some v) d = if truthy v then some v else d

-- `isinstance(items, list)`
abbrev pub as_list : Text → Option Json → Outcome Exn Items
as_list what none = ok nil
as_list what (some (array vs)) = ok vs
as_list what (some v) = raise parse (what ++ codes "json root must be list or {items:[]}")

-- `data if isinstance(data, list) else data.get("items") or data.get("programs") or []`; only an
-- object has `get`
unfoldable pub items_of : Text → Json → Outcome Exn Items
unfolding field
items_of what (array vs) = ok vs
items_of what (object m) =
    as_list what (
      or_value (or_value (field (codes "items") m) (field (codes "programs") m)) (some (array nil)))
items_of what v = raise attribute_error (codes "object has no attribute 'get'")

-- `.replace("Z", "+00:00")`
abbrev pub utc_offset : Text → Text
utc_offset [] = []
utc_offset (c ∷ t) =
    let rest = utc_offset t in if eqb c 90 then codes "+00:00" ++ rest else c ∷ rest

module _ (env : Env) (now : ℕ) where
  str_or_unknown : Option Json → Text
  str_or_unknown v = elim (or_value v none) [ none ↦ codes "unknown" | some w ↦ str env.repr w ]

  -- `datetime.fromisoformat(str(v).replace("Z", "+00:00"))`
  time_of : Text → Json → Outcome Exn ℕ
  time_of bad v = elim (env.fromisoformat (utc_offset (str env.repr v))) [
    | none ↦ raise parse bad
    | some t ↦ ok t
  ]

  json_channel : Members → Outcome Exn Channel
  unfolding str_or_unknown field make_channel
  json_channel m =
      make_channel
        (str_or_unknown (or_value (field (codes "channel_id") m) (field (codes "channel") m)))
        (str_or_unknown (or_value (field (codes "channel_name") m) (field (codes "channel") m)))

  llm_channel : Members → Outcome Exn Channel
  unfolding str_or_unknown field make_channel
  llm_channel m =
      make_channel (str_or_unknown (field (codes "channel_id") m))
        (str_or_unknown (or_value (field (codes "channel_name") m) (field (codes "channel") m)))

  -- the program of one item, from the values of "title", "start" and "end"
  abbrev pub Build : Type 0
  Build = Text → Members → Json → Json → Json → Outcome Exn TvProgram

  -- in the JSON parser
  unfoldable pub json_build : Build
  unfolding json_channel time_of field to_program
  json_build source_id m title start finish = do
    starts ← time_of (codes "bad datetime: ") start
    ends ← time_of (codes "bad datetime: ") finish
    channel ← json_channel m
    to_program env now (str env.repr title) channel starts ends (field (codes "description") m)
        source_id

  -- in the LLM parser
  unfoldable pub llm_build : Build
  unfolding llm_channel time_of field to_program
  llm_build source_id m title start finish = do
    channel ← llm_channel m
    starts ← time_of (codes "bad datetime from llm: ") start
    ends ← time_of (codes "bad datetime from llm: ") finish
    to_program env now (str env.repr title) channel starts ends (field (codes "description") m)
        source_id

  with_keys :
      Build
      → Text
      → Members
      → Option Json
      → Option Json
      → Option Json
      → Outcome Exn (List TvProgram)
  with_keys build source_id m (some title) (some start) (some finish) = do
    p ← build source_id m title start finish
    ok (p ∷ [])
  with_keys build source_id m _ _ _ = ok []

  -- an item without a title, start or end, or that is no object, is passed over
  unfoldable pub item : Build → Text → Json → Outcome Exn (List TvProgram)
  unfolding with_keys field
  item build source_id (object m) =
      with_keys build source_id m (field (codes "title") m) (field (codes "start") m)
        (field (codes "end") m)
  item build source_id v = ok []

  unfoldable pub items : Build → Text → Items → Outcome Exn (List TvProgram)
  unfolding item
  items build source_id nil = ok []
  items build source_id (cons v vs) = do
    p ← item build source_id v
    ps ← items build source_id vs
    ok (p ++ ps)

  -- `except json.JSONDecodeError`
  loaded : Outcome Exn Json → Outcome Exn Json
  loaded (ok v) = ok v
  loaded (err e) =
      if is_instance e json_decode then raise parse (codes "invalid json: " ++ e.message) else err e

  -- `JSONParser.parse`
  unfoldable pub json_parse : Text → Text → Outcome Exn (List TvProgram)
  unfolding loaded json_build items items_of
  json_parse content source_id = do
    data_ ← loaded (env.loads content)
    vs ← items_of empty_text data_
    items json_build source_id vs

  -- the fragment from the first "{" to the last "}" is `re.search(r"\{.*\}", raw, re.DOTALL)`
  module _ (search : Text → Option Text) where
    reloaded : Text → Outcome Exn Json → Outcome Exn Json
    reloaded raw (ok v) = ok v
    reloaded raw (err e) =
        if is_instance e json_decode
        then (elim (search raw) [
          | none ↦ raise parse (codes "llm returned non-json: " ++ e.message)
          | some fragment ↦ env.loads fragment
        ])
        else err e

    completed : Outcome Exn Text → Outcome Exn Text
    completed (ok raw) = ok raw
    completed (err e) = if is_instance e llm then raise parse e.message else err e

    -- `LLMParser.parse`; `render` is the prompt's template, `complete` the model
    unfoldable pub llm_parse :
        (Text → Text) → (Text → Outcome Exn Text) → Text → Text → Outcome Exn (List TvProgram)
    unfolding reloaded completed llm_build items items_of
    llm_parse render complete content source_id = do
      raw ← completed (complete (render (take 30000 (env.decode content))))
      data_ ← reloaded raw (env.loads raw)
      vs ← items_of (codes "llm ") data_
      items llm_build source_id vs

  -- `HTMLParser.parse`; `extract` is trafilatura's, and gives no text for `None`
  unfoldable pub html_parse : (Text → Text) → Text → Outcome Exn (List TvProgram)
  html_parse extract content =
      if is_empty (extract (env.decode content))
      then raise parse (codes "no extractable text from html")
      else ok []
