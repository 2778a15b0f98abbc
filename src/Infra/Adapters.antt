-- ===== src/Infra/Adapters.antt =====
-- The adapters of infrastructure/llm: ollama_adapter.py, openai_adapter.py and anthropic_adapter.py.
-- The SDKs and httpx are parameters, and so is `getenv`, `os.getenv`. A float is a number as in
-- Infra.Router.
pub mod Routed
use mini_agent_go.Prelude.{
  ℕ, zero, suc, ◌+◌, ◌-◌, ◌*◌, ◌/◌, ◌%◌, ◌≤◌, ◌<◌, ◌≡◌, refl, sym, ap, ◌∙◌, ◌≢◌, ◌↔◌, ◌⊎◌, inl, inr,
  Bool, true, false, not, ◌&&◌, ◌||◌, Option, none, some, List, [], ◌∷◌, ◌++◌, map, arith, ltb, leb,
  eqb, if◌then◌else◌, eqb_iff, Bool-cases, Option-cases, is_some, get_or, length, take, filter, all,
  find, All, length-append, length-filter, length-take, length-map, All-append, Text, codes,
  empty_text, is_empty, or_text, some_text, all_text, count, append-nil, append_assoc, All-take,
  All-filter, All-not_counted, All-implied, All-both, count-append, count-filter,
  length-filter-count, ◌==◌, decimal, eq_iff, eq_refl, eq-false, eq_sym, Outcome, ok, err, ◌>>=◌,
  >>=-eq-ok,
}
use mini_agent_go.Core.Exceptions.{Exn, raise, llm, index_error}
use mini_agent_go.Domain.Models.{Json, null, bool, text, object, Members, end, member}
use mini_agent_go.Infra.Programs.{field, str}
use mini_agent_go.Infra.Router.{Llm}

-- `except Exception as e: raise LLMError(str(e))`
unfoldable pub wrapped {ℓ} : {A W : Type ℓ} → Outcome Exn A × W → Outcome Exn A × W
wrapped (ok a, w) = (ok a, w)
wrapped (err e, w) = (raise llm e.message, w)

-- `xs[0]`
unfoldable pub first_of {ℓ} : {A : Type ℓ} → List A → Outcome Exn A
first_of [] = raise index_error (codes "list index out of range")
first_of (x ∷ xs) = ok x

-- `s.rstrip("/")`
unfoldable pub rstrip_slash : Text → Text
rstrip_slash [] = []
rstrip_slash (c ∷ s) =
    let rest = rstrip_slash s in if eqb c b'/' && is_empty rest then [] else c ∷ rest

-- `httpx.AsyncClient`: `post` with a JSON body, and what a response has
pub record Httpx (W : Type 0) : Type 1 where
  pub Response : Type 0
  pub post : Text → Json → W → Outcome Exn Response × W
  pub raise_for_status : Response → Outcome Exn (Unit {0})
  pub json : Response → Outcome Exn Json

pub record Ollama : Type 0 where
  pub base_url : Text
  pub model : Text

unfoldable pub new_ollama : (Text → Text → Text) → Option Text → Option Text → Ollama
unfolding rstrip_slash
new_ollama getenv base_url model = record {
  base_url =
      rstrip_slash
        (get_or base_url (getenv (codes "OLLAMA_BASE_URL") (codes "http://localhost:11434")));
  model = get_or model (getenv (codes "OLLAMA_MODEL") (codes "llama3"));
}

-- `floats` is `list` of a JSON value
module _ {W : Type 0} (client : Httpx W) (repr : Json → Text)
    (floats : Json → Outcome Exn (List ℕ)) where
  response_text : Json → Text
  unfolding field
  response_text (object m) = str repr (get_or (field (codes "response") m) (text []))
  response_text v = []

  embedding_of : Json → Outcome Exn (List ℕ)
  unfolding field
  embedding_of (object m) = elim (field (codes "embedding") m) [ none ↦ ok [] | some v ↦ floats v ]
  embedding_of v = ok []

  -- the JSON of a response that is no error
  replied :
      {A : Type 0} → (Json → Outcome Exn A) → Outcome Exn client.Response × W → Outcome Exn A × W
  replied read (err e, w) = (err e, w)
  replied read (ok r, w) = ((do u ← client.raise_for_status r; v ← client.json r; read v), w)

  unfoldable pub ollama : Ollama → Llm W
  unfolding wrapped replied response_text embedding_of
  ollama o = record {
    complete = λ prompt json_mode w. wrapped (
        replied (λ v. ok (response_text v))
          (client.post (o.base_url ++ codes "/api/generate")
            (object (
              member (codes "model") (text o.model) (
                member (codes "prompt") (text prompt) (
                  member (codes "stream") (bool false) (
                    member (codes "format") (if json_mode then text (codes "json") else null)
                      end)))))
            w));
    embed = λ t w. wrapped (
        replied embedding_of (
          client.post (o.base_url ++ codes "/api/embeddings")
            (object (member (codes "model") (text o.model) (member (codes "prompt") (text t) end)))
            w));
  }

-- `AsyncOpenAI`: the contents of the choices, and the embeddings of the data
pub record OpenaiClient (W : Type 0) : Type 0 where
  pub create : Text → Text → Bool → W → Outcome Exn (List (Option Text)) × W
  pub embeddings : Text → Text → W → Outcome Exn (List (List ℕ)) × W

-- `model or os.getenv(...)`
unfoldable pub openai_model : (Text → Text → Text) → Option Text → Text
openai_model getenv model =
    or_text (some_text model) (getenv (codes "OPENAI_MODEL") (codes "gpt-4o-mini"))

first_content : {W : Type 0} → Outcome Exn (List (Option Text)) × W → Outcome Exn Text × W
unfolding first_of
first_content (err e, w) = (err e, w)
first_content (ok choices, w) = ((do content ← first_of choices; ok (some_text content)), w)

first_embedding : {W : Type 0} → Outcome Exn (List (List ℕ)) × W → Outcome Exn (List ℕ) × W
unfolding first_of
first_embedding (err e, w) = (err e, w)
first_embedding (ok es, w) = (first_of es, w)

unfoldable pub openai : {W : Type 0} → OpenaiClient W → Text → Llm W
unfolding wrapped first_content first_embedding
openai client model = record {
  complete = λ prompt json_mode w. wrapped (first_content (client.create model prompt json_mode w));
  embed = λ t w. wrapped (first_embedding (client.embeddings (codes "text-embedding-3-small") t w));
}

-- a block of a message; `none` where it has no such attribute
pub record Block : Type 0 where
  pub type : Option Text
  pub text : Option Text

-- the `anthropic` package: making a client with a key, and the blocks of a message
pub record AnthropicClient (W : Type 0) : Type 0 where
  pub open_client : Text → W → Outcome Exn (Unit {0}) × W
  pub create : Text → ℕ → Text → W → Outcome Exn (List Block) × W

pub record Anthropic : Type 0 where
  pub model : Text
  pub api_key : Text

unfoldable pub new_anthropic : (Text → Text → Text) → Option Text → Option Text → Anthropic
new_anthropic getenv model api_key = record {
  model =
      or_text (some_text model)
        (getenv (codes "ANTHROPIC_MODEL") (codes "claude-3-5-sonnet-20240620"));
  api_key = or_text (some_text api_key) (getenv (codes "ANTHROPIC_API_KEY") []);
}

-- the loop over the blocks
unfoldable pub text_parts : List Block → List Text
text_parts [] = []
text_parts (b ∷ bs) =
    let rest = text_parts bs in
    if some_text b.type == codes "text" then some_text b.text ∷ rest else rest

-- `"\n".join(parts)`
unfoldable pub join_lines : List Text → Text
join_lines [] = []
join_lines (p ∷ []) = p
join_lines (p ∷ q ∷ ps) = p ++ 10 ∷ join_lines (q ∷ ps)

joined : {W : Type 0} → Outcome Exn (List Block) × W → Outcome Exn Text × W
unfolding text_parts join_lines
joined (err e, w) = (err e, w)
joined (ok blocks, w) = (ok (join_lines (text_parts blocks)), w)

asked :
    {W : Type 0}
    → AnthropicClient W
    → Anthropic
    → Text
    → Outcome Exn (Unit {0}) × W
    → Outcome Exn Text × W
unfolding joined
asked client a prompt (err e, w) = (err e, w)
asked client a prompt (ok u, w) = joined (client.create a.model 4096 prompt w)

unfoldable pub anthropic : {W : Type 0} → AnthropicClient W → Anthropic → Llm W
unfolding wrapped asked
anthropic client a = record {
  complete = λ prompt json_mode w. wrapped (asked client a prompt (client.open_client a.api_key w));
  embed = λ t w. (
    raise llm (codes "Anthropic does not provide embeddings in this adapter; use OpenAI/Ollama"),
    w,
  );
}
