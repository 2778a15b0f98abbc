-- ===== src/Domain/Normalization/Title.antt =====
-- Normal titles: single blanks between words, none at the ends.
use mini_agent_go.Prelude.{
  ℕ, ◌≡◌, refl, sym, ap, ◌∙◌, inl, inr, Bool, true, false, not, List, [], ◌∷◌, arith, if◌then◌else◌,
  Bool-cases, filter, Text,
}
use mini_agent_go.Domain.Normalization.{
  is_space, lstrip, keep_last, rstrip, strip, squeeze, collapse, normalize_title,
}

-- No two spaces in a row, and each a plain blank; the flag says that a space stands before.
abbrev Spaced : Bool → Text → Type 0
Spaced after [] = Unit
Spaced after (c ∷ s) = (is_space c ≡ true → (c ≡ 32) × (after ≡ false)) × Spaced (is_space c) s

-- The same, and no space at the end.
abbrev pub IsClosed : Bool → Text → Type 0
IsClosed after [] = after ≡ false
IsClosed after (c ∷ s) = (is_space c ≡ true → (c ≡ 32) × (after ≡ false)) × IsClosed (is_space c) s

-- The empty title, or one that neither begins nor ends with a space, in which every space is a
-- single blank.
abbrev pub IsNormal : Text → Type 0
IsNormal [] = Unit
IsNormal (c ∷ s) = IsClosed true (c ∷ s)

is_space-blank : is_space 32 ≡ true
unfolding is_space
is_space-blank = refl

squeeze-Spaced : (after : Bool) (s : Text) → Spaced after (squeeze after s)
unfolding squeeze
squeeze-Spaced after [] = tt
squeeze-Spaced after (c ∷ s) = ground (arith, is_space-blank, squeeze-Spaced (is_space c) s)

lstrip-Spaced : (after : Bool) (s : Text) → Spaced after s → Spaced true (lstrip s)
unfolding lstrip
lstrip-Spaced after [] h = tt
lstrip-Spaced after (c ∷ s) h = ground (arith, lstrip-Spaced (is_space c) s h.1)

abbrev IsEmptyOr : Bool → Text → Type 0
IsEmptyOr after [] = Unit
IsEmptyOr after (c ∷ s) = IsClosed after (c ∷ s)

keep_last-IsEmptyOr :
    (after : Bool) (c : ℕ) (s : Text)
    → (is_space c ≡ true → (c ≡ 32) × (after ≡ false))
    → IsEmptyOr (is_space c) s
    → IsEmptyOr after (keep_last c s)
keep_last-IsEmptyOr after c [] h k = ground arith
keep_last-IsEmptyOr after c (d ∷ s) h k = (h, k)

rstrip-IsEmptyOr : (after : Bool) (s : Text) → Spaced after s → IsEmptyOr after (rstrip s)
unfolding rstrip
rstrip-IsEmptyOr after [] h = tt
rstrip-IsEmptyOr after (c ∷ s) h =
    keep_last-IsEmptyOr after c (rstrip s) h.0 (rstrip-IsEmptyOr (is_space c) s h.1)

IsNormal-of : (s : Text) → IsEmptyOr true s → IsNormal s
IsNormal-of [] h = tt
IsNormal-of (c ∷ s) h = h

normalize_title-IsNormal : (t : Text) → IsNormal (normalize_title t)
unfolding normalize_title collapse strip
normalize_title-IsNormal t = IsNormal-of (rstrip (lstrip (squeeze false t))) (
    rstrip-IsEmptyOr true (lstrip (squeeze false t))
      (lstrip-Spaced false (squeeze false t) (squeeze-Spaced false t)))

squeeze-Spaced_fixed : (after : Bool) (s : Text) → IsClosed after s → squeeze after s ≡ s
unfolding squeeze
squeeze-Spaced_fixed after [] h = refl
squeeze-Spaced_fixed after (c ∷ s) h = ground (arith, squeeze-Spaced_fixed (is_space c) s h.1)

rstrip_fixed : (after : Bool) (s : Text) → IsClosed after s → rstrip s ≡ s
unfolding rstrip
rstrip_fixed after [] h = refl
rstrip_fixed after (c ∷ []) h = ground arith
rstrip_fixed after (c ∷ d ∷ s) h = rw (rstrip_fixed (is_space c) (d ∷ s) h.1)

IsClosed-weaken : (c : ℕ) (s : Text) → IsClosed true (c ∷ s) → IsClosed false (c ∷ s)
IsClosed-weaken c s h = (λ p. ground (arith, h.0 p), h.1)

normalize_title_fixed : (t : Text) → IsNormal t → normalize_title t ≡ t
unfolding normalize_title collapse strip lstrip
normalize_title_fixed [] h = unfold squeeze rstrip in refl
normalize_title_fixed (c ∷ s) h =
    rw (squeeze-Spaced_fixed false (c ∷ s) (IsClosed-weaken c s h))
      (ground (arith, rstrip_fixed true (c ∷ s) h))

abbrev visible : Text → Text
visible = filter (λ c. not (is_space c))

visible-squeeze : (after : Bool) (s : Text) → visible (squeeze after s) ≡ visible s
unfolding squeeze
visible-squeeze after [] = refl
visible-squeeze after (c ∷ s) = ground (arith, is_space-blank, visible-squeeze (is_space c) s)

visible-lstrip : (s : Text) → visible (lstrip s) ≡ visible s
unfolding lstrip
visible-lstrip [] = refl
visible-lstrip (c ∷ s) = ground (arith, visible-lstrip s)

visible-keep_last : (c : ℕ) (s : Text) → visible (keep_last c s) ≡ visible (c ∷ s)
visible-keep_last c [] = ground arith
visible-keep_last c (d ∷ s) = refl

visible-rstrip : (s : Text) → visible (rstrip s) ≡ visible s
unfolding rstrip
visible-rstrip [] = refl
visible-rstrip (c ∷ s) = ground (arith, visible-keep_last c (rstrip s), visible-rstrip s)

visible-normalize_title : (t : Text) → visible (normalize_title t) ≡ visible t
unfolding normalize_title collapse strip
visible-normalize_title t =
    visible-rstrip (lstrip (squeeze false t))
    ∙ visible-lstrip (squeeze false t)
    ∙ visible-squeeze false t

-- the words that a word and others behind it make, where an empty one is none
abbrev push_word : Text → List Text → List Text
push_word [] ws = ws
push_word (c ∷ w) ws = (c ∷ w) ∷ ws

-- a text cut at its spaces: what stands before the first of them, and the words behind it
abbrev cut_at : Bool → ℕ → Text × List Text → Text × List Text
cut_at true c (w, ws) = ([], push_word w ws)
cut_at false c (w, ws) = (c ∷ w, ws)

abbrev cut : Text → Text × List Text
cut [] = ([], [])
cut (c ∷ s) = cut_at (is_space c) c (cut s)

-- `str.split()`: the longest parts without a space
abbrev pub words : Text → List Text
words s = push_word (cut s).0 (cut s).1

cut-space : (c : ℕ) (s : Text) → is_space c ≡ true → cut (c ∷ s) ≡ ([], words s)
cut-space c s e = ap (λ (b : Bool). cut_at b c (cut s)) e

squeeze-space :
    (c : ℕ) (s : Text)
    → is_space c ≡ true
    → (squeeze false (c ∷ s) ≡ 32 ∷ squeeze true s) × (squeeze true (c ∷ s) ≡ squeeze true s)
unfolding squeeze
squeeze-space c s e = rw e (refl, refl)

squeeze-visible :
    (after : Bool) (c : ℕ) (s : Text)
    → is_space c ≡ false
    → squeeze after (c ∷ s) ≡ c ∷ squeeze false s
unfolding squeeze
squeeze-visible after c s e = rw e refl

abbrev word_list : Text × List Text → List Text
word_list (w, ws) = push_word w ws

cut-squeeze : (s : Text) → (cut (squeeze false s) ≡ cut s) × (words (squeeze true s) ≡ words s)
cut-squeeze [] = unfold squeeze in (refl, refl)
cut-squeeze (c ∷ s) = elim (Bool-cases (is_space c)) [
  | inl e ↦
      let same = (cut-squeeze s).1 in
      let (first, run) = squeeze-space c s e in
      (
        ap cut first
            ∙ cut-space 32 (squeeze true s) is_space-blank
            ∙ ap (λ (ws : List Text). ([], ws)) same
            ∙ sym (cut-space c s e),
        ap words run ∙ same ∙ ap word_list (sym (cut-space c s e)),
      )
  | inr e ↦
      let same = ap (cut_at (is_space c) c) (cut-squeeze s).0 in
      (
        ap cut (squeeze-visible false c s e) ∙ same,
        ap words (squeeze-visible true c s e) ∙ ap word_list same,
      )
]

words-lstrip : (s : Text) → words (lstrip s) ≡ words s
words-lstrip [] = unfold lstrip in refl
words-lstrip (c ∷ s) = elim (Bool-cases (is_space c)) [
  | inl e ↦
      let gone : lstrip (c ∷ s) ≡ lstrip s = unfold lstrip in rw e refl in
      ap words gone ∙ words-lstrip s ∙ ap word_list (sym (cut-space c s e))
  | inr e ↦ let kept : lstrip (c ∷ s) ≡ c ∷ s = unfold lstrip in rw e refl in ap words kept
]

cut-keep_last : (c : ℕ) (s : Text) → cut (keep_last c s) ≡ cut (c ∷ s)
cut-keep_last c [] =
    let kept = λ (b : Bool). cut (if b then [] else c ∷ []) in
    elim (Bool-cases (is_space c)) [
      | inl e ↦ ap kept e ∙ sym (ap (λ (b : Bool). cut_at b c ([], [])) e)
      | inr e ↦ ap kept e
    ]
cut-keep_last c (d ∷ s) = refl

cut-rstrip : (s : Text) → cut (rstrip s) ≡ cut s
unfolding rstrip
cut-rstrip [] = refl
cut-rstrip (c ∷ s) = cut-keep_last c (rstrip s) ∙ ap (cut_at (is_space c) c) (cut-rstrip s)

words-normalize_title : (t : Text) → words (normalize_title t) ≡ words t
unfolding normalize_title collapse strip
words-normalize_title t =
    ap word_list (cut-rstrip (lstrip (squeeze false t)))
    ∙ words-lstrip (squeeze false t)
    ∙ ap word_list (cut-squeeze t).0

-- `s` has the words of `t` with other spaces: none at the ends, and single blanks in between; and it
-- is not changed again
pub record IsTidy (t s : Text) : Type 0 where
  pub normal : IsNormal s
  pub same_words : words s ≡ words t
  pub same : visible s ≡ visible t
  pub settled : normalize_title s ≡ s

-- A normalised title has the same words as the title, with no space at either end and single blanks
-- between them, has all the characters that are no spaces in their order, and is left as it is when
-- normalised again.
pub normalize_title-IsTidy : (t : Text) → IsTidy t (normalize_title t)
normalize_title-IsTidy t = record {
  normal = normalize_title-IsNormal t;
  same_words = words-normalize_title t;
  same = visible-normalize_title t;
  settled = normalize_title_fixed (normalize_title t) (normalize_title-IsNormal t);
}
