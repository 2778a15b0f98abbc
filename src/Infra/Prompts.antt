-- ===== src/Infra/Prompts.antt =====
-- infrastructure/llm/prompt_loader.py. `read_yaml` opens a file and reads it by `yaml.safe_load`; the
-- values of the variables are texts, and there is at least one, as in the call of the LLM parser.
pub mod Filled
use mini_agent_go.Prelude.{
  ℕ, zero, suc, ◌+◌, ◌-◌, ◌*◌, ◌/◌, ◌%◌, ◌≤◌, ◌<◌, ◌≡◌, refl, sym, ap, ◌∙◌, ◌≢◌, ◌↔◌, ◌⊎◌, inl, inr,
  Bool, true, false, not, ◌&&◌, ◌||◌, Option, none, some, List, [], ◌∷◌, ◌++◌, map, arith, ltb, leb,
  eqb, if◌then◌else◌, eqb_iff, Bool-cases, Option-cases, is_some, get_or, length, take, filter, all,
  find, All, length-append, length-filter, length-take, length-map, All-append, Text, codes,
  empty_text, is_empty, or_text, some_text, all_text, count, append-nil, append_assoc, All-take,
  All-filter, All-not_counted, All-implied, All-both, count-append, count-filter,
  length-filter-count, ◌==◌, decimal, eq_iff, eq_refl, eq-false, eq_sym, Outcome, ok, err, ◌>>=◌,
  >>=-eq-ok,
}
use mini_agent_go.Core.Exceptions.{Exn, raise, attribute_error}
use mini_agent_go.Domain.Models.{Json, text, object, Members, end}
use mini_agent_go.Infra.Programs.{field}

-- `s.startswith(p)`
unfoldable pub starts_with : Text → Text → Bool
starts_with [] s = true
starts_with (c ∷ p) [] = false
starts_with (c ∷ p) (d ∷ s) = let rest = starts_with p s in eqb c d && rest

-- The loop of `str.replace`, where so many characters belong to an occurrence of `old` that was
-- replaced.
unfoldable pub replace_from : Text → Text → ℕ → Text → Text
unfolding starts_with
replace_from old new skip [] = []
replace_from old new (suc skip) (c ∷ s) = replace_from old new skip s
replace_from old new zero (c ∷ s) =
    let past = replace_from old new (length old - 1) s in
    let on = replace_from old new zero s in if starts_with old (c ∷ s) then new ++ past else c ∷ on

-- `s.replace(old, new)`, for an `old` that is not empty
unfoldable pub replace : Text → Text → Text → Text
unfolding replace_from
replace old new s = replace_from old new zero s

-- `"{{ " + k + " }}"`
unfoldable pub placeholder : Text → Text
placeholder k = b'{' ∷ b'{' ∷ b' ' ∷ k ++ b' ' ∷ b'}' ∷ b'}' ∷ []

-- the loop over the variables
unfoldable pub substituted : List (Text × Text) → Text → Text
unfolding replace placeholder
substituted [] template = template
substituted ((k, v) ∷ vs) template = substituted vs (replace (placeholder k) v template)

-- `load`: any document but a mapping counts as an empty one
loaded : Json → Members
loaded (object m) = m
loaded v = end

-- the template is used as a text
rendered : List (Text × Text) → Option Json → Outcome Exn Text
unfolding substituted
rendered vs none = ok (substituted vs [])
rendered vs (some (text template)) = ok (substituted vs template)
rendered vs (some v) = raise attribute_error (codes "object has no attribute 'replace'")

filled : {W : Type 0} → List (Text × Text) → Outcome Exn Members × W → Outcome Exn Text × W
unfolding rendered field
filled vs (err e, w) = (err e, w)
filled vs (ok m, w) = (rendered vs (field (codes "user_template") m), w)

module _ {W : Type 0} (read_yaml : Text → W → Outcome Exn Json × W) (base_dir : Text) where
  unfoldable pub load : Text → W → Outcome Exn Members × W
  unfolding loaded
  load name w =
      let (r, w') = read_yaml (base_dir ++ b'/' ∷ name ++ codes ".yaml") w in
      ((do v ← r; ok (loaded v)), w')

  unfoldable pub render : Text → List (Text × Text) → W → Outcome Exn Text × W
  unfolding filled
  render name variables w = filled variables (load name w)
