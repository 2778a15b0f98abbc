-- ===== src/Infra/Prompts/Filled.antt =====
-- What a rendered template is, against a template that is taken apart into its texts and its slots.
use mini_agent_go.Prelude.{
  ℕ, zero, suc, ◌-◌, ◌≡◌, refl, sym, ap, ◌∙◌, inl, inr, Bool, true, false, not, ◌&&◌, some, List,
  [], ◌∷◌, ◌++◌, arith, eqb, if◌then◌else◌, eqb_iff, Bool-cases, length, all, All, All-append, Text,
  codes, append_assoc, ◌==◌, eq_iff, Outcome, ok,
}
use mini_agent_go.Core.Exceptions.{Exn}
use mini_agent_go.Domain.Models.{Json, text, Members}
use mini_agent_go.Infra.Programs.{field}
use mini_agent_go.Infra.Prompts.{
  load, render, filled, rendered, starts_with, replace_from, replace, placeholder, substituted,
}

pub data Segment : Type 0 where
  plain : Text → Segment
  slot : Text → Segment

-- the template that the segments make
abbrev pub print : List Segment → Text
print [] = []
print (plain t ∷ ss) = t ++ print ss
print (slot k ∷ ss) = placeholder k ++ print ss

-- the slots named `k` filled with `v`, all at once
abbrev pub fill : Text → Text → List Segment → List Segment
fill k v [] = []
fill k v (plain t ∷ ss) = plain t ∷ fill k v ss
fill k v (slot j ∷ ss) = (if j == k then plain v else slot j) ∷ fill k v ss

-- a text without the character `c`
abbrev pub IsFreeOf : ℕ → Text → Type 0
IsFreeOf c = All (λ d. eqb d c ≡ false)

pub is_free-IsFreeOf : (c : ℕ) (t : Text) → all (λ d. not (eqb d c)) t ≡ true → IsFreeOf c t
is_free-IsFreeOf c [] h = tt
is_free-IsFreeOf c (d ∷ t) h =
    let both : (eqb d c ≡ false) × (all (λ e. not (eqb e c)) t ≡ true) = ground (arith, h) in
    (both.0, is_free-IsFreeOf c t both.1)

-- whether two characters are both opening braces
abbrev are_braces : ℕ → ℕ → Bool
are_braces c d = eqb c b'{' && eqb d b'{'

-- a text without two opening braces in a row, and without one at its end
abbrev pub IsPlain : Text → Type 0
IsPlain [] = Unit
IsPlain (c ∷ []) = eqb c b'{' ≡ false
IsPlain (c ∷ d ∷ t) = (are_braces c d ≡ false) × IsPlain (d ∷ t)

abbrev pub is_plain : Text → Bool
is_plain [] = true
is_plain (c ∷ []) = not (eqb c b'{')
is_plain (c ∷ d ∷ t) = not (are_braces c d) && is_plain (d ∷ t)

pub is_plain-IsPlain : (t : Text) → is_plain t ≡ true → IsPlain t
is_plain-IsPlain [] h = tt
is_plain-IsPlain (c ∷ []) h = ground arith
is_plain-IsPlain (c ∷ d ∷ t) h =
    let both : (are_braces c d ≡ false) × (is_plain (d ∷ t) ≡ true) = ground (arith, h) in
    (both.0, is_plain-IsPlain (d ∷ t) both.1)

free-IsPlain : (t : Text) → IsFreeOf b'{' t → IsPlain t
free-IsPlain [] h = tt
free-IsPlain (c ∷ []) h = h.0
free-IsPlain (c ∷ d ∷ t) h =
    let first : eqb c b'{' ≡ false = h.0 in (rw first refl, free-IsPlain (d ∷ t) h.1)

-- Texts have no two opening braces in a row and none at the end, and the names of slots no brace and
-- no blank.
abbrev pub IsTemplate : List Segment → Type 0
IsTemplate [] = Unit
IsTemplate (plain t ∷ ss) = IsPlain t × IsTemplate ss
IsTemplate (slot k ∷ ss) = (IsFreeOf b'{' k × IsFreeOf b' ' k) × IsTemplate ss

module _ (k v : Text) where
  -- the characters of an occurrence are passed over
  replace_from-skip :
      (old : Text) (t s : Text) → replace_from old v (length t) (t ++ s) ≡ replace_from old v zero s
  unfolding replace_from
  replace_from-skip old [] s = refl
  replace_from-skip old (c ∷ t) s = replace_from-skip old t s

  starts_with-append : (p s : Text) → starts_with p (p ++ s) ≡ true
  unfolding starts_with
  starts_with-append [] s = refl
  starts_with-append (c ∷ p) s = ground (arith, starts_with-append p s)

  -- a text that can hold no part of a slot is kept
  replace_from-plain :
      (t s : Text)
      → IsPlain t
      → replace_from (placeholder k) v zero (t ++ s) ≡ t ++ replace_from (placeholder k) v zero s
  unfolding replace_from placeholder starts_with
  replace_from-plain [] s h = refl
  replace_from-plain (c ∷ []) s h = ground (arith, h, eqb_iff c b'{', eqb_iff b'{' c)
  replace_from-plain (c ∷ d ∷ t) s h = ground (
    arith,
    h.0,
    eqb_iff c b'{',
    eqb_iff b'{' c,
    eqb_iff d b'{',
    eqb_iff b'{' d,
    replace_from-plain (d ∷ t) s h.1,
  )

  -- two names that are followed by a blank, and have none
  starts_with-name :
      (j k r s : Text)
      → IsFreeOf b' ' j
      → IsFreeOf b' ' k
      → starts_with (k ++ b' ' ∷ r) (j ++ b' ' ∷ s) ≡ true
      → j ≡ k
  unfolding starts_with
  starts_with-name [] [] r s a b h = refl
  starts_with-name [] (c ∷ k) r s a b h = ground (arith, h, b.0, eqb_iff c b' ')
  starts_with-name (d ∷ j) [] r s a b h = ground (arith, h, a.0, eqb_iff b' ' d, eqb_iff d b' ')
  starts_with-name (d ∷ j) (c ∷ k) r s a b h =
      let both : (eqb c d ≡ true) × (starts_with (k ++ b' ' ∷ r) (j ++ b' ' ∷ s) ≡ true) =
        ground (arith, h) in
      ground (arith, (eqb_iff c d).0 both.0, starts_with-name j k r s a.1 b.1 both.1)

  replace_from-past :
      (old t s : Text) (n : ℕ)
      → n ≡ length t
      → replace_from old v n (t ++ s) ≡ replace_from old v zero s
  replace_from-past old t s n e = rw e (replace_from-skip old t s)

  replace_from-slot :
      (s : Text)
      → replace_from (placeholder k) v zero (placeholder k ++ s)
        ≡ v ++ replace_from (placeholder k) v zero s
  unfolding replace_from placeholder
  replace_from-slot s =
      let t : Text = k ++ b' ' ∷ b'}' ∷ b'}' ∷ [] in
      rw (starts_with-append t s) (
        ap (λ (x : Text). v ++ x)
          (replace_from-past (placeholder k) (b'{' ∷ b' ' ∷ t) s (suc (suc (suc (length t))) - 1)
            (omega arith)))

  replace_from-other :
      (j s : Text)
      → IsFreeOf b'{' j
      → IsFreeOf b' ' j
      → IsFreeOf b' ' k
      → (j == k) ≡ false
      → replace_from (placeholder k) v zero (placeholder j ++ s)
        ≡ placeholder j ++ replace_from (placeholder k) v zero s
  unfolding replace_from placeholder
  replace_from-other j s free name name' h =
      let u : Text = b' ' ∷ b'}' ∷ b'}' ∷ [] in
      let kept = replace_from-plain (j ++ u) s (
        free-IsPlain (j ++ u)
          (All-append (λ d. eqb d b'{' ≡ false) j u free (refl, (refl, (refl, tt))))) in
      elim (Bool-cases (starts_with (k ++ u) ((j ++ u) ++ s))) [
        | inl e ↦
            let same =
              starts_with-name j k (b'}' ∷ b'}' ∷ []) (b'}' ∷ b'}' ∷ s) name name'
                (ap (λ (x : Text). starts_with (k ++ u) x) (sym (append_assoc j u s)) ∙ e) in
            ground (arith, h, (eq_iff j k).1 same)
        | inr e ↦ rw e (ap (λ (x : Text). b'{' ∷ b'{' ∷ b' ' ∷ x) kept)
      ]

  replace-fill :
      (ss : List Segment)
      → IsTemplate ss
      → IsFreeOf b' ' k
      → replace (placeholder k) v (print ss) ≡ print (fill k v ss)
  unfolding replace
  replace-fill [] h n = unfold replace_from in refl
  replace-fill (plain t ∷ ss) h n =
      replace_from-plain t (print ss) h.0 ∙ ap (λ (u : Text). t ++ u) (replace-fill ss h.1 n)
  replace-fill (slot j ∷ ss) h n = elim (Bool-cases (j == k)) [
    | inl e ↦ rw e (
        ap (λ (i : Text). replace_from (placeholder k) v zero (placeholder i ++ print ss))
          ((eq_iff j k).0 e)
        ∙ replace_from-slot (print ss)
        ∙ ap (λ (u : Text). v ++ u) (replace-fill ss h.1 n))
    | inr e ↦ rw e (
        replace_from-other j (print ss) h.0.0 h.0.1 n e
        ∙ ap (λ (u : Text). placeholder j ++ u) (replace-fill ss h.1 n))
  ]

module _ {W : Type 0} (read_yaml : Text → W → Outcome Exn Json × W) (base_dir : Text) where
  -- What the LLM parser sends for a text `v`, in a template of slots and of texts, which may have
  -- single braces but no two opening ones in a row: the template with every slot of the variable
  -- filled with `v`, whatever braces `v` has, and all else as it was.
  pub render-fill :
      (name k v : Text) (w w' : W) (m : Members) (ss : List Segment)
      → load read_yaml base_dir name w ≡ (ok m, w')
      → field (codes "user_template") m ≡ some (text (print ss))
      → IsTemplate ss
      → IsFreeOf b' ' k
      → render read_yaml base_dir name ((k, v) ∷ []) w ≡ (ok (print (fill k v ss)), w')
  unfolding render filled rendered substituted
  render-fill name k v w w' m ss read template parts blank =
      rw (read, template, replace-fill k v ss parts blank) refl
