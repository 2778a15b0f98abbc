-- ===== src/Infra/Adapters/Routed.antt =====
-- The router over the adapters.
use mini_agent_go.Prelude.{
  ℕ, ◌+◌, ◌*◌, ◌≡◌, refl, ap, ◌⊎◌, inl, inr, Bool, List, [], ◌∷◌, ◌++◌, Text, Outcome, ok, err,
}
use mini_agent_go.Core.Exceptions.{Exn, raise, llm, is_subclass}
use mini_agent_go.Domain.Models.{Json}
use mini_agent_go.Infra.Router.{
  Llm, LlmRouter, complete, Failing, none_left, one_more, complete-answer, complete-exhausted,
}
use mini_agent_go.Infra.Adapters.{
  wrapped, Httpx, Ollama, ollama, OpenaiClient, openai, AnthropicClient, Anthropic, anthropic,
}

-- an adapter with what it is made of
pub data Adapter (W : Type 0) : Type 1 where
  an_ollama : Httpx W → (Json → Text) → (Json → Outcome Exn (List ℕ)) → Ollama → Adapter W
  an_openai : OpenaiClient W → Text → Adapter W
  an_anthropic : AnthropicClient W → Anthropic → Adapter W

unfoldable pub llm_of : {W : Type 0} → Adapter W → Llm W
unfolding ollama openai anthropic
llm_of (an_ollama client repr floats o) = ollama client repr floats o
llm_of (an_openai client model) = openai client model
llm_of (an_anthropic client a) = anthropic client a

unfoldable pub llms_of : {W : Type 0} → List (Adapter W) → List (Llm W)
unfolding llm_of
llms_of [] = []
llms_of (a ∷ bs) = llm_of a ∷ llms_of bs

OnlyLlm {ℓ} : {A : Type ℓ} → Outcome Exn A → Type 0
OnlyLlm (ok a) = Unit
OnlyLlm (err e) = e.cls ≡ llm

wrapped-OnlyLlm : {A W : Type 0} (x : Outcome Exn A × W) → OnlyLlm (wrapped x).0
unfolding OnlyLlm wrapped
wrapped-OnlyLlm (ok a, w) = tt
wrapped-OnlyLlm (err e, w) = refl

module _ {W : Type 0} (sleep : ℕ → W → W) (prompt : Text) (json_mode : Bool) where
  complete-OnlyLlm : (a : Adapter W) (w : W) → OnlyLlm ((llm_of a).complete prompt json_mode w).0
  unfolding llm_of
  complete-OnlyLlm (an_ollama client repr floats o) w = wrapped-OnlyLlm _
  complete-OnlyLlm (an_openai client model) w = wrapped-OnlyLlm _
  complete-OnlyLlm (an_anthropic client a) w = wrapped-OnlyLlm _

  -- How a chain ends: those before some provider fail and it answers, or all fail.
  pub data Settled (idx : ℕ) (ps : List (Llm W)) (w : W) (r : Outcome Exn Text × W) : Type 0 where
    answered :
        (front rest : List (Llm W)) (p : Llm W) (t : Text) (w' w'' : W)
        → ps ≡ front ++ p ∷ rest
        → Failing sleep prompt json_mode idx front w w'
        → p.complete prompt json_mode w' ≡ (ok t, w'')
        → r ≡ (ok t, w'')
        → Settled idx ps w r
    exhausted :
        (m : Text) (w' : W)
        → Failing sleep prompt json_mode idx ps w w'
        → r ≡ (raise llm m, w')
        → Settled idx ps w r

  -- either the chain has one that answers, after those before it failed, or all fail
  abbrev Search : ℕ → List (Llm W) → W → Type 0
  Search idx ps w =
      ((front : List (Llm W)) × (rest : List (Llm W)) × (p : Llm W) × (t : Text) × (w' : W)
        × (w'' : W) × (ps ≡ front ++ p ∷ rest)
        × Failing sleep prompt json_mode idx front w w'
        × (p.complete prompt json_mode w' ≡ (ok t, w'')))
      ⊎ ((w' : W) × Failing sleep prompt json_mode idx ps w w')

  later :
      (idx : ℕ) (p : Llm W) (ps : List (Llm W)) (w w' : W) (e : Exn)
      → p.complete prompt json_mode w ≡ (err e, w')
      → e.cls ≡ llm
      → Search (idx + 1) ps (sleep (2 * (idx + 1)) w')
      → Search idx (p ∷ ps) w
  unfolding is_subclass
  later idx p ps w w' e h c (inl (front, rest, q, t, v, v', split, failing, answer)) = inl (
    p ∷ front,
    rest,
    q,
    t,
    v,
    v',
    ap (λ (l : List (Llm W)). p ∷ l) split,
    one_more idx p front e w w' v h (rw c refl) failing,
    answer,
  )
  later idx p ps w w' e h c (inr (v, failing)) =
      inr (v, one_more idx p ps e w w' v h (rw c refl) failing)

  search : (idx : ℕ) (bs : List (Adapter W)) (w : W) → Search idx (llms_of bs) w
  unfolding llms_of OnlyLlm
  search idx [] w = inr (w, none_left idx w)
  search idx (b ∷ bs) w =
      go ((llm_of b).complete prompt json_mode w) refl (complete-OnlyLlm b w)
        (λ v. search (idx + 1) bs (sleep (2 * (idx + 1)) v))
    where
      go :
          (x : Outcome Exn Text × W)
          → (llm_of b).complete prompt json_mode w ≡ x
          → OnlyLlm x.0
          → ((v : W) → Search (idx + 1) (llms_of bs) (sleep (2 * (idx + 1)) v))
          → Search idx (llm_of b ∷ llms_of bs) w
      go (ok t, v) h o next = inl ([], llms_of bs, llm_of b, t, w, v, refl, none_left idx w, h)
      go (err e, v) h o next = later idx (llm_of b) (llms_of bs) w v e h o (next v)

  settle :
      (router : LlmRouter W) (w : W)
      → Search 0 (router.primary ∷ router.fallbacks) w
      → Settled 0 (router.primary ∷ router.fallbacks) w (complete sleep prompt json_mode router w)
  settle router w (inl (front, rest, p, t, w', w'', split, failing, answer)) =
      answered front rest p t w' w'' split failing answer (
        complete-answer sleep prompt json_mode router front rest p w w' w'' (ok t) split failing
          answer (λ e h. cc))
  settle router w (inr (w', failing)) =
      let (m, h) = complete-exhausted sleep prompt json_mode router w w' failing in
      exhausted m w' failing h

  -- A router over adapters returns the text of the first that answers, after asking those before it,
  -- or, where none answers, raises an `LLMError` after asking each: no other exception gets through.
  pub complete-Settled :
      (a : Adapter W) (bs : List (Adapter W)) (w : W)
      → Settled 0 (llms_of (a ∷ bs)) w (
          complete sleep prompt json_mode (record { primary = llm_of a; fallbacks = llms_of bs }) w)
  unfolding llms_of
  complete-Settled a bs w =
      settle (record { primary = llm_of a; fallbacks = llms_of bs }) w (search 0 (a ∷ bs) w)
