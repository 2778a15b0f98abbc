-- ===== src/Api/Export/Reader.antt =====
-- A reader of CSV, as that of Python's `csv` works, character by character.
pub mod Fields
pub mod RoundTrip
use mini_agent_go.Prelude.{
  ℕ, zero, suc, ◌+◌, ◌-◌, ◌*◌, ◌/◌, ◌%◌, ◌≤◌, ◌<◌, ◌≡◌, refl, sym, ap, ◌∙◌, ◌≢◌, ◌↔◌, ◌⊎◌, inl, inr,
  Bool, true, false, not, ◌&&◌, ◌||◌, Option, none, some, List, [], ◌∷◌, ◌++◌, map, arith, ltb, leb,
  eqb, if◌then◌else◌, eqb_iff, Bool-cases, Option-cases, is_some, get_or, length, take, filter, all,
  find, All, length-append, length-filter, length-take, length-map, All-append, Text, codes,
  empty_text, is_empty, or_text, some_text, all_text, count, append-nil, append_assoc, All-take,
  All-filter, All-not_counted, All-implied, All-both, count-append, count-filter,
  length-filter-count, ◌==◌, decimal, eq_iff, eq_refl, eq-false, eq_sym, Outcome, ok, err, ◌>>=◌,
  >>=-eq-ok,
}
use mini_agent_go.Api.Export.{
  comma, quote, cr, lf, is_special, needs_quotes, doubled, write_field, write_row, write_rows,
  header, cells, export_programs_csv,
}

pub data Mode : Type 0 where
  record_start field_start plain quoted closing after_cr : Mode

-- the characters of the field, the fields of the row and the rows that were read
pub record Reader : Type 0 where
  pub mode : Mode
  pub field : Text
  pub row : List Text
  pub rows : List (List Text)

unfoldable pub end_field : Reader → Reader
end_field s = record s { mode = field_start; field = []; row = s.row ++ s.field ∷ [] }

unfoldable pub end_row : Mode → Reader → Reader
end_row m s = record {
  mode = m;
  field = [];
  row = [];
  rows = s.rows ++ (s.row ++ s.field ∷ []) ∷ [];
}

unfoldable pub end_line : Mode → Reader → Reader
end_line m s = record { mode = m; field = []; row = []; rows = s.rows ++ s.row ∷ [] }

unfoldable pub add_char : Mode → ℕ → Reader → Reader
add_char m c s = record s { mode = m; field = s.field ++ c ∷ [] }

-- between fields and in an unquoted one
unfoldable pub outside : ℕ → Reader → Reader → Reader
unfolding end_field end_row
outside c other s =
    if eqb c comma
    then end_field s
    else if eqb c cr
    then end_row after_cr s
    else if eqb c lf
    then end_row record_start s
    else other

unfoldable pub opened : ℕ → Reader → Reader
unfolding add_char
opened c s = if eqb c quote then record s { mode = quoted } else add_char plain c s

unfoldable pub first : ℕ → Reader → Reader
unfolding end_line outside opened
first c s =
    if eqb c cr
    then end_line after_cr s
    else if eqb c lf
    then end_line record_start s
    else outside c (opened c s) s

unfoldable pub step_in : Mode → ℕ → Reader → Reader
unfolding outside opened first add_char
step_in record_start c s = first c s
step_in field_start c s = outside c (opened c s) s
step_in plain c s = outside c (add_char plain c s) s
step_in quoted c s = if eqb c quote then record s { mode = closing } else add_char quoted c s
step_in closing c s = if eqb c quote then add_char quoted c s else outside c (add_char plain c s) s
step_in after_cr c s = if eqb c lf then record s { mode = record_start } else first c s

unfoldable pub feed : Reader → Text → Reader
unfolding step_in
feed s [] = s
feed s (c ∷ t) = feed (step_in s.mode c s) t

-- the rows of a text that ends after a row
unfoldable pub read_rows : Text → List (List Text)
unfolding feed
read_rows t = (feed (record { mode = record_start; field = []; row = []; rows = [] }) t).rows
