-- ===== src/Infra/Router.antt =====
-- infrastructure/llm/llm_router.py and llm/stub.py. `W` is the world that the providers talk to, and
-- `sleep` is `asyncio.sleep`, in tenths of a second.
use mini_agent_go.Prelude.{
  ℕ, zero, suc, ◌+◌, ◌*◌, ◌%◌, ◌≡◌, refl, ap, ◌∙◌, Bool, true, false, Option, none, some, List, [],
  ◌∷◌, ◌++◌, if◌then◌else◌, length, Text, codes, empty_text, Outcome, ok, err,
}
use mini_agent_go.Core.Exceptions.{Exn, raise, is_instance, llm}

pub record Llm (W : Type 0) : Type 0 where
  pub complete : Text → Bool → W → Outcome Exn Text × W
  pub embed : Text → W → Outcome Exn (List ℕ) × W

pub record LlmRouter (W : Type 0) : Type 0 where
  pub primary : Llm W
  pub fallbacks : List (Llm W)

-- `f"{last_err}"`
last_text : Option Exn → Text
last_text none = codes "None"
last_text (some e) = e.message

-- `except LLMError`: the next provider is tried
after_attempt :
    {W : Type 0} → (Exn → W → Outcome Exn Text × W) → Outcome Exn Text × W → Outcome Exn Text × W
after_attempt next (ok text, w) = (ok text, w)
after_attempt next (err e, w) =
    let rest = next e w in if is_instance e llm then rest else (err e, w)

module _ {W : Type 0} (sleep : ℕ → W → W) (prompt : Text) (json_mode : Bool) where
  -- the loop over the chain, at its index and with the last error
  try_chain : ℕ → Option Exn → List (Llm W) → W → Outcome Exn Text × W
  unfolding last_text after_attempt
  try_chain idx last [] w = (raise llm (codes "all llm providers failed: " ++ last_text last), w)
  try_chain idx last (p ∷ ps) w =
      after_attempt (λ e w'. try_chain (idx + 1) (some e) ps (sleep (2 * (idx + 1)) w'))
        (p.complete prompt json_mode w)

  unfoldable pub complete : LlmRouter W → W → Outcome Exn Text × W
  unfolding try_chain
  complete r w = try_chain 0 none (r.primary ∷ r.fallbacks) w

  -- The providers of a list fail one after another with an `LLMError`, from a world to a world.
  pub data Failing : ℕ → List (Llm W) → W → W → Type 0 where
    none_left : (idx : ℕ) (w : W) → Failing idx [] w w
    one_more :
        (idx : ℕ) (p : Llm W) (ps : List (Llm W)) (e : Exn) (w w' w'' : W)
        → p.complete prompt json_mode w ≡ (err e, w')
        → is_instance e llm ≡ true
        → Failing (idx + 1) ps (sleep (2 * (idx + 1)) w') w''
        → Failing idx (p ∷ ps) w w''

  try_chain-answer :
      (idx : ℕ) (last : Option Exn) (ps rest : List (Llm W)) (p : Llm W) (w w' w'' : W)
      (r : Outcome Exn Text)
      → Failing idx ps w w'
      → p.complete prompt json_mode w' ≡ (r, w'')
      → ((e : Exn) → r ≡ err e → is_instance e llm ≡ false)
      → try_chain idx last (ps ++ p ∷ rest) w ≡ (r, w'')
  unfolding try_chain
  try_chain-answer idx last [] rest p w w' w'' (ok t) (none_left _ _) h n = rw h
  try_chain-answer idx last [] rest p w w' w'' (err e) (none_left _ _) h n = rw (h, n e refl)
  try_chain-answer idx last (q ∷ qs) rest p w w' w'' r (one_more _ _ _ e _ v _ f i g) h n =
      rw (f, i)
        (try_chain-answer (idx + 1) (some e) qs rest p (sleep (2 * (idx + 1)) v) w' w'' r g h n)

  -- The first provider that does not fail with an `LLMError` decides: its text is returned, or its
  -- other error raised, and no provider after it is asked.
  pub complete-answer :
      (router : LlmRouter W) (ps rest : List (Llm W)) (p : Llm W) (w w' w'' : W)
      (r : Outcome Exn Text)
      → router.primary ∷ router.fallbacks ≡ ps ++ p ∷ rest
      → Failing 0 ps w w'
      → p.complete prompt json_mode w' ≡ (r, w'')
      → ((e : Exn) → r ≡ err e → is_instance e llm ≡ false)
      → complete router w ≡ (r, w'')
  unfolding complete
  complete-answer router ps rest p w w' w'' r c f h n =
      ap (λ (l : List (Llm W)). try_chain 0 none l w) c
      ∙ try_chain-answer 0 none ps rest p w w' w'' r f h n

  try_chain-exhausted :
      (idx : ℕ) (last : Option Exn) (ps : List (Llm W)) (w w' : W)
      → Failing idx ps w w'
      → (m : Text) × (try_chain idx last ps w ≡ (raise llm m, w'))
  unfolding try_chain
  try_chain-exhausted idx last [] w w' (none_left _ _) =
      (codes "all llm providers failed: " ++ last_text last, refl)
  try_chain-exhausted idx last (q ∷ qs) w w' (one_more _ _ _ e _ v _ f i g) =
      let (m, h) = try_chain-exhausted (idx + 1) (some e) qs (sleep (2 * (idx + 1)) v) w' g in
      (m, rw (f, i) h)

  -- When every provider fails with an `LLMError`, so does the router, after asking each of them.
  pub complete-exhausted :
      (router : LlmRouter W) (w w' : W)
      → Failing 0 (router.primary ∷ router.fallbacks) w w'
      → (m : Text) × (complete router w ≡ (raise llm m, w'))
  unfolding complete
  complete-exhausted router w w' f =
      try_chain-exhausted 0 none (router.primary ∷ router.fallbacks) w w' f

-- `embed` asks the primary provider alone
unfoldable pub embed : {W : Type 0} → LlmRouter W → Text → W → Outcome Exn (List ℕ) × W
embed r text w = r.primary.embed text w

-- `StubLLM`; a float that is a whole number is that number
unfoldable pub stub_complete : Bool → Text
stub_complete json_mode = if json_mode then codes "{\"items\":[]}" else empty_text

stub_embed_from : ℕ → ℕ → Text → List ℕ
stub_embed_from zero i text = []
stub_embed_from (suc n) i text = (length text % (i + 1)) ∷ stub_embed_from n (i + 1) text

unfoldable pub stub_embed : Text → List ℕ
unfolding stub_embed_from
stub_embed text = stub_embed_from 8 0 text
