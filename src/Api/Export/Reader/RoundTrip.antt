-- ===== src/Api/Export/Reader/RoundTrip.antt =====
-- The reader gets back the rows of the export.
use mini_agent_go.Prelude.{
  ℕ, ◌≡◌, refl, ap, ◌∙◌, Option, none, some, List, [], ◌∷◌, ◌++◌, map, get_or, All, Text, codes,
  some_text, append-nil, append_assoc,
}
use mini_agent_go.Api.Export.{
  comma, cr, lf, write_field, write_row, write_rows, header, cells, export_programs_csv,
}
use mini_agent_go.Api.Export.Reader.{record_start, field_start, Reader, feed, read_rows}
use mini_agent_go.Api.Export.Reader.Fields.{
  feed-append, reading, feed-write_field, record_start-Begins, field_start-Begins,
}
use mini_agent_go.Prelude.Iso.{isoformat}
use mini_agent_go.Domain.Models.{Json, TvProgram}
use mini_agent_go.Infra.Table.{Table}
use mini_agent_go.Infra.Programs.{ProgramRow, ProgramColumn, program_cell}
use mini_agent_go.Infra.Programs

-- the fields of a row after the first
feed-fields :
    (row : List Text) (rows : List (List Text)) (f : Text) (fs : List Text)
    → feed (reading field_start [] row rows) (write_row (f ∷ fs))
      ≡ reading record_start [] [] (rows ++ (row ++ f ∷ fs) ∷ [])
unfolding feed write_row
feed-fields row rows f [] =
    let (m, e, ends) = feed-write_field field_start row rows f field_start-Begins in
    feed-append (reading field_start [] row rows) (write_field f) (cr ∷ lf ∷ [])
    ∙ ap (λ s. feed s (cr ∷ lf ∷ [])) e
    ∙ ap (λ s. feed s (lf ∷ [])) (ends.at_cr refl (reading m f row rows))
feed-fields row rows f (g ∷ fs) =
    let (m, e, ends) = feed-write_field field_start row rows f field_start-Begins in
    feed-append (reading field_start [] row rows) (write_field f) (comma ∷ write_row (g ∷ fs))
    ∙ ap (λ s. feed s (comma ∷ write_row (g ∷ fs))) e
    ∙ ap (λ s. feed s (write_row (g ∷ fs))) (ends.at_comma (reading m f row rows))
    ∙ feed-fields (row ++ f ∷ []) rows g fs
    ∙ ap (λ r. reading record_start [] [] (rows ++ r ∷ [])) (append_assoc row (f ∷ []) (g ∷ fs))

feed-write_row :
    (rows : List (List Text)) (f g : Text) (fs : List Text)
    → feed (reading record_start [] [] rows) (write_row (f ∷ g ∷ fs))
      ≡ reading record_start [] [] (rows ++ (f ∷ g ∷ fs) ∷ [])
unfolding feed write_row
feed-write_row rows f g fs =
    let (m, e, ends) = feed-write_field record_start [] rows f record_start-Begins in
    feed-append (reading record_start [] [] rows) (write_field f) (comma ∷ write_row (g ∷ fs))
    ∙ ap (λ s. feed s (comma ∷ write_row (g ∷ fs))) e
    ∙ ap (λ s. feed s (write_row (g ∷ fs))) (ends.at_comma (reading m f [] rows))
    ∙ feed-fields (f ∷ []) rows g fs

-- a row of two fields or more
abbrev IsWide : List Text → Type 0
IsWide [] = ⊥
IsWide (f ∷ []) = ⊥
IsWide (f ∷ g ∷ fs) = Unit

feed-write_rows :
    (rows rs : List (List Text))
    → All IsWide rs
    → feed (reading record_start [] [] rows) (write_rows rs)
      ≡ reading record_start [] [] (rows ++ rs)
unfolding feed write_rows
feed-write_rows rows [] w = rw (append-nil rows) refl
feed-write_rows rows ([] ∷ rs) w = absurd w.0
feed-write_rows rows ((f ∷ []) ∷ rs) w = absurd w.0
feed-write_rows rows ((f ∷ g ∷ fs) ∷ rs) w =
    feed-append (reading record_start [] [] rows) (write_row (f ∷ g ∷ fs)) (write_rows rs)
    ∙ ap (λ s. feed s (write_rows rs)) (feed-write_row rows f g fs)
    ∙ feed-write_rows (rows ++ (f ∷ g ∷ fs) ∷ []) rs w.1
    ∙ ap (reading record_start [] []) (append_assoc rows ((f ∷ g ∷ fs) ∷ []) rs)

cells-AreWide : (ps : List TvProgram) → All IsWide (map cells ps)
unfolding cells
cells-AreWide [] = tt
cells-AreWide (p ∷ ps) = (tt, cells-AreWide ps)

-- The columns: title, channel, start, end and description.
abbrev pub columns_of : TvProgram → List Text
columns_of p =
    p.title
    ∷ p.channel.name
    ∷ isoformat p.slot.start
    ∷ isoformat p.slot.finish
    ∷ get_or p.description []
    ∷ []

cells-columns : (p : TvProgram) → cells p ≡ columns_of p
unfolding cells
cells-columns p = go p.description
  where
    go :
        (o : Option Text)
        → p.title
            ∷ p.channel.name
            ∷ isoformat p.slot.start
            ∷ isoformat p.slot.finish
            ∷ some_text o
            ∷ []
          ≡ p.title
            ∷ p.channel.name
            ∷ isoformat p.slot.start
            ∷ isoformat p.slot.finish
            ∷ get_or o []
            ∷ []
    go none = refl
    go (some t) = refl

map-cells-columns : (ps : List TvProgram) → map cells ps ≡ map columns_of ps
map-cells-columns [] = refl
map-cells-columns (p ∷ ps) = rw (cells-columns p, map-cells-columns ps) refl

-- Whatever commas, quotes and line ends the titles, names and descriptions hold, a reader of the
-- exported CSV gets the header, and then for each program of the range, in order, its title, its
-- channel's name, its two times in ISO form and its description, or an empty text without one.
pub read_rows-export_programs_csv :
    (repr : Json → Text) (programs : Table ProgramRow ProgramColumn program_cell) (start finish : ℕ)
    (channel_id : Option Text) (st : programs.Store)
    → read_rows (export_programs_csv repr programs start finish channel_id st)
      ≡ (codes "title" ∷ codes "channel" ∷ codes "start" ∷ codes "end" ∷ codes "description" ∷ [])
        ∷ map columns_of (Programs.list_by_range repr programs start finish channel_id st)
unfolding read_rows export_programs_csv
read_rows-export_programs_csv repr programs start finish channel_id st =
    let ps = Programs.list_by_range repr programs start finish channel_id st in
    ap (λ (s : Reader). s.rows) (feed-write_rows [] (header ∷ map cells ps) (tt, cells-AreWide ps))
    ∙ ap (λ (rs : List (List Text)). header ∷ rs) (map-cells-columns ps)
