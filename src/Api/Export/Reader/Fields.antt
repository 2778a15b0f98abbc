-- ===== src/Api/Export/Reader/Fields.antt =====
-- The reader reads one field as it was written.
use mini_agent_go.Prelude.{
  ℕ, ◌≡◌, refl, ap, ◌∙◌, inl, inr, false, List, [], ◌∷◌, ◌++◌, arith, eqb, Bool-cases, Text,
  append-nil, append_assoc,
}
use mini_agent_go.Api.Export.{comma, quote, cr, is_special, needs_quotes, doubled, write_field}
use mini_agent_go.Api.Export.Reader.{
  Mode, record_start, field_start, plain, quoted, closing, after_cr, Reader, end_field, end_row,
  add_char, outside, opened, first, step_in, feed,
}

pub feed-append : (s : Reader) (t u : Text) → feed s (t ++ u) ≡ feed (feed s t) u
unfolding feed
feed-append s [] u = refl
feed-append s (c ∷ t) u = feed-append (step_in s.mode c s) t u

abbrev pub reading : Mode → Text → List Text → List (List Text) → Reader
reading m f r rs = record { mode = m; field = f; row = r; rows = rs }

outside-ordinary : (c : ℕ) (o s : Reader) → is_special c ≡ false → outside c o s ≡ o
unfolding outside is_special
outside-ordinary c o s h = ground arith

feed-plain :
    (row : List Text) (rows : List (List Text)) (done t : Text)
    → needs_quotes t ≡ false
    → feed (reading plain done row rows) t ≡ reading plain (done ++ t) row rows
unfolding feed needs_quotes
feed-plain row rows done [] h = rw (append-nil done) refl
feed-plain row rows done (c ∷ t) h =
    let ordinary : is_special c ≡ false = ground arith in
    let rest : needs_quotes t ≡ false = ground arith in
    rw (outside-ordinary c _ _ ordinary) (
      feed-plain row rows (done ++ c ∷ []) t rest
      ∙ ap (λ f. reading plain f row rows) (append_assoc done (c ∷ []) t))

quoted-other : (c : ℕ) (s : Reader) → eqb c quote ≡ false → step_in quoted c s ≡ add_char quoted c s
unfolding step_in
quoted-other c s e = rw e refl

feed-doubled :
    (row : List Text) (rows : List (List Text)) (done t : Text)
    → feed (reading quoted done row rows) (doubled t) ≡ reading quoted (done ++ t) row rows
unfolding feed doubled add_char
feed-doubled row rows done [] = rw (append-nil done) refl
feed-doubled row rows done (c ∷ t) =
    let rest = λ (d : ℕ).
      feed-doubled row rows (done ++ d ∷ []) t
      ∙ ap (λ f. reading quoted f row rows) (append_assoc done (d ∷ []) t) in
    elim (Bool-cases (eqb c quote)) [
      | inl e ↦ let same : c ≡ quote = ground arith in rw (e, same) (rest quote)
      | inr e ↦
          rw e (
            ap (λ s. feed s (doubled t)) (quoted-other c (reading quoted done row rows) e) ∙ rest c)
    ]

-- a field that was read whole ends at a comma, and at the end of the line if it is not the first
pub record Ends (m m' : Mode) : Type 0 where
  pub at_comma : (s : Reader) → step_in m' comma s ≡ end_field s
  pub at_cr : m ≡ field_start → (s : Reader) → step_in m' cr s ≡ end_row after_cr s

plain-Ends : (m : Mode) → Ends m plain
plain-Ends m = record {
  at_comma = λ s. unfold step_in in refl;
  at_cr = λ e s. unfold step_in in refl;
}

closing-Ends : (m : Mode) → Ends m closing
closing-Ends m = record {
  at_comma = λ s. unfold step_in in refl;
  at_cr = λ e s. unfold step_in in refl;
}

-- the modes in which a field begins
pub record Begins (m : Mode) : Type 0 where
  pub ends : Ends m m
  pub at_quote : (s : Reader) → step_in m quote s ≡ record s { mode = quoted }
  pub at_ordinary : (c : ℕ) (s : Reader) → is_special c ≡ false → step_in m c s ≡ add_char plain c s

opened-ordinary : (c : ℕ) (s : Reader) → is_special c ≡ false → opened c s ≡ add_char plain c s
unfolding opened is_special
opened-ordinary c s h = ground arith

first-outside : (c : ℕ) (s : Reader) → is_special c ≡ false → first c s ≡ outside c (opened c s) s
unfolding first is_special
first-outside c s h = ground arith

pub record_start-Begins : Begins record_start
unfolding step_in
record_start-Begins = record {
  ends = record { at_comma = λ s. refl; at_cr = λ e s. cc };
  at_quote = λ s. refl;
  at_ordinary =
      λ c s h. first-outside c s h ∙ outside-ordinary c (opened c s) s h ∙ opened-ordinary c s h;
}

pub field_start-Begins : Begins field_start
unfolding step_in
field_start-Begins = record {
  ends = record { at_comma = λ s. refl; at_cr = λ e s. refl };
  at_quote = λ s. refl;
  at_ordinary = λ c s h. outside-ordinary c (opened c s) s h ∙ opened-ordinary c s h;
}

feed-quoted :
    (m : Mode) (row : List Text) (rows : List (List Text)) (f : Text)
    → Begins m
    → feed (reading m [] row rows) (quote ∷ doubled f ++ quote ∷ []) ≡ reading closing f row rows
unfolding feed
feed-quoted m row rows f b =
    ap (λ s. feed s (doubled f ++ quote ∷ [])) (b.at_quote (reading m [] row rows))
    ∙ feed-append (reading quoted [] row rows) (doubled f) (quote ∷ [])
    ∙ ap (λ s. feed s (quote ∷ [])) (feed-doubled row rows [] f)

pub feed-write_field :
    (m : Mode) (row : List Text) (rows : List (List Text)) (f : Text)
    → Begins m
    → (m' : Mode) × (feed (reading m [] row rows) (write_field f) ≡ reading m' f row rows)
      × Ends m m'
unfolding feed write_field
feed-write_field m row rows f b = elim (Bool-cases (needs_quotes f)) [
  | inl e ↦ (closing, rw e (feed-quoted m row rows f b), closing-Ends m)
  | inr e ↦ rw e (bare f e)
]
  where
    bare :
        (f : Text)
        → needs_quotes f ≡ false
        → (m' : Mode) × (feed (reading m [] row rows) f ≡ reading m' f row rows) × Ends m m'
    bare [] e = (m, refl, b.ends)
    bare (c ∷ t) e =
        let ordinary : is_special c ≡ false = unfold needs_quotes in ground arith in
        let rest : needs_quotes t ≡ false = unfold needs_quotes in ground arith in
        (
          plain,
          rw (b.at_ordinary c (reading m [] row rows) ordinary)
              (unfold add_char in feed-plain row rows (c ∷ []) t rest),
          plain-Ends m,
        )
