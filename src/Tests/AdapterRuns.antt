-- ===== src/Tests/AdapterRuns.antt =====
-- Runs of the router over the adapters, and of the prompts.
use mini_agent_go.Domain.Models.{Json, text, object, member, end, Members}
use mini_agent_go.Infra.Programs.{field}
use mini_agent_go.Infra.Prompts.{load, render, placeholder}
use mini_agent_go.Infra.Prompts.Filled.{
  Segment, plain, slot, print, fill, is_plain-IsPlain, is_free-IsFreeOf, IsFreeOf, render-fill,
}
use mini_agent_go.Prelude.{
  ℕ, ◌+◌, ◌≡◌, refl, false, none, some, [], ◌∷◌, codes, ◌==◌, ok, List, Text, Outcome, ◌++◌,
}
use mini_agent_go.Core.Exceptions.{raise, transport, Exn}
use mini_agent_go.Infra.Router.{complete}
use mini_agent_go.Infra.Adapters.{OpenaiClient, AnthropicClient, text_parts, join_lines}
use mini_agent_go.Infra.Adapters.Routed.{
  Adapter, an_openai, an_anthropic, llm_of, llms_of, Settled, complete-Settled,
}

-- the world counts the calls; no key opens a client, and the model repeats its prompt
abbrev locked : AnthropicClient ℕ
locked = record {
  open_client = λ key w. (raise transport (codes "no key"), w + 1);
  create = λ model n prompt w. (ok [], w + 1);
}

abbrev echo : OpenaiClient ℕ
echo = record {
  create = λ model prompt json_mode w. (ok (some prompt ∷ []), w + 1);
  embeddings = λ model t w. (ok [], w + 1);
}

abbrev claude : Adapter ℕ
claude = an_anthropic locked (record { model = codes "claude"; api_key = [] })

abbrev gpt : Adapter ℕ
gpt = an_openai echo (codes "gpt-4o-mini")

complete-Settled_example :
    Settled
      (λ n w. w)
      (codes "hi")
      false
      0
      (llms_of (claude ∷ gpt ∷ []))
      0
      (complete
        (λ n w. w)
        (codes "hi")
        false
        (record { primary = llm_of claude; fallbacks = llms_of (gpt ∷ []) })
        0)
complete-Settled_example = complete-Settled (λ n w. w) (codes "hi") false claude (gpt ∷ []) 0

-- of an answer, the blocks of text, on lines of their own
two_blocks :
    join_lines (
      text_parts (
        record { type = some (codes "text"); text = some (codes "a") }
        ∷ record { type = some (codes "tool_use"); text = none }
        ∷ record { type = some (codes "text"); text = some (codes "b") }
        ∷ []))
    ≡ codes "a\nb"
unfolding text_parts join_lines ◌==◌
two_blocks = refl

-- the template of prompts/extract_program.yaml; the text has a slot of its own
abbrev before_content : Text
before_content =
    codes
      "请从以下内容中抽取所有电视节目条目，按 JSON 数组返回：\n字段：title(string), channel_id(string|null), channel_name(string), start(ISO8601), end(ISO8601), description(string|null)\n包裹在 {\"items\":[...]} 顶层对象中。\n内容：\n\"\"\"\n"

abbrev after_content : Text
after_content = codes "\n\"\"\"\n仅返回 JSON，不要任何解释。\n"

abbrev segments : List Segment
segments = plain before_content ∷ slot (codes "content") ∷ plain after_content ∷ []

abbrev template : Members
template = member (codes "user_template") (text (print segments)) end

abbrev read_template : Text → ℕ → Outcome Exn Json × ℕ
read_template path w = (ok (object template), w + 1)

content_name : IsFreeOf b'{' (codes "content") × IsFreeOf b' ' (codes "content")
content_name =
    (is_free-IsFreeOf b'{' (codes "content") refl, is_free-IsFreeOf b' ' (codes "content") refl)

render-fill_example :
    render read_template
      (codes "prompts")
      (codes "extract_program")
      ((codes "content", codes "{{ now }}") ∷ [])
      0
    ≡ (ok (print (fill (codes "content") (codes "{{ now }}") segments)), 1)
unfolding load field ◌==◌
render-fill_example =
    render-fill read_template (codes "prompts") (codes "extract_program") (codes "content")
      (codes "{{ now }}") 0 1 template segments refl refl
      (
        is_plain-IsPlain before_content refl,
        (content_name, (is_plain-IsPlain after_content refl, tt)),
      )
      (is_free-IsFreeOf b' ' (codes "content") refl)

abbrev filled_in : Text
filled_in = before_content ++ (codes "{{ now }}" ++ after_content)

filled_text : print (fill (codes "content") (codes "{{ now }}") segments) ≡ filled_in
unfolding placeholder ◌==◌
filled_text = refl
