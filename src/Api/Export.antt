-- ===== src/Api/Export.antt =====
-- routers/export.py: the programs of a range of times as CSV. The writer is that of Python's `csv`, with
-- its default dialect, for rows of two fields or more.
pub mod Reader
use mini_agent_go.Prelude.{
  ℕ, zero, suc, ◌+◌, ◌-◌, ◌*◌, ◌/◌, ◌%◌, ◌≤◌, ◌<◌, ◌≡◌, refl, sym, ap, ◌∙◌, ◌≢◌, ◌↔◌, ◌⊎◌, inl, inr,
  Bool, true, false, not, ◌&&◌, ◌||◌, Option, none, some, List, [], ◌∷◌, ◌++◌, map, arith, ltb, leb,
  eqb, if◌then◌else◌, eqb_iff, Bool-cases, Option-cases, is_some, get_or, length, take, filter, all,
  find, All, length-append, length-filter, length-take, length-map, All-append, Text, codes,
  empty_text, is_empty, or_text, some_text, all_text, count, append-nil, append_assoc, All-take,
  All-filter, All-not_counted, All-implied, All-both, count-append, count-filter,
  length-filter-count, ◌==◌, decimal, eq_iff, eq_refl, eq-false, eq_sym, Outcome, ok, err, ◌>>=◌,
  >>=-eq-ok,
}
use mini_agent_go.Prelude.Iso.{isoformat}
use mini_agent_go.Domain.Models.{Json, TvProgram}
use mini_agent_go.Infra.Table.{Table}
use mini_agent_go.Infra.Programs.{ProgramRow, ProgramColumn, program_cell}
use mini_agent_go.Infra.Programs

abbrev pub comma : ℕ
comma = b','

abbrev pub quote : ℕ
quote = 34

abbrev pub cr : ℕ
cr = 13

abbrev pub lf : ℕ
lf = 10

-- a character for which a field is quoted
unfoldable pub is_special : ℕ → Bool
is_special c = eqb c comma || (eqb c quote || (eqb c cr || eqb c lf))

unfoldable pub needs_quotes : Text → Bool
unfolding is_special
needs_quotes [] = false
needs_quotes (c ∷ s) = is_special c || needs_quotes s

-- a quote in a quoted field is written twice
unfoldable pub doubled : Text → Text
doubled [] = []
doubled (c ∷ s) = let rest = doubled s in if eqb c quote then quote ∷ quote ∷ rest else c ∷ rest

unfoldable pub write_field : Text → Text
unfolding needs_quotes doubled
write_field s = if needs_quotes s then quote ∷ doubled s ++ quote ∷ [] else s

-- `writer.writerow`
unfoldable pub write_row : List Text → Text
unfolding write_field
write_row [] = cr ∷ lf ∷ []
write_row (f ∷ []) = write_field f ++ cr ∷ lf ∷ []
write_row (f ∷ g ∷ fs) = write_field f ++ comma ∷ write_row (g ∷ fs)

unfoldable pub write_rows : List (List Text) → Text
unfolding write_row
write_rows [] = []
write_rows (r ∷ rs) = write_row r ++ write_rows rs

abbrev pub header : List Text
header = codes "title" ∷ codes "channel" ∷ codes "start" ∷ codes "end" ∷ codes "description" ∷ []

unfoldable pub cells : TvProgram → List Text
cells p =
    p.title
    ∷ p.channel.name
    ∷ isoformat p.slot.start
    ∷ isoformat p.slot.finish
    ∷ some_text p.description
    ∷ []

-- `GET /export/programs.csv`
unfoldable pub export_programs_csv :
    (repr : Json → Text) (programs : Table ProgramRow ProgramColumn program_cell)
    → ℕ
    → ℕ
    → Option Text
    → programs.Store
    → Text
unfolding write_rows cells
export_programs_csv repr programs start finish channel_id st =
    write_rows
      (header ∷ map cells (Programs.list_by_range repr programs start finish channel_id st))
