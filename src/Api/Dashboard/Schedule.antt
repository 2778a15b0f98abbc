-- ===== src/Api/Dashboard/Schedule.antt =====
-- The timeline of the dashboard shows the rows of its window by channel, in order.
use mini_agent_go.Prelude.{
  ℕ, ◌≡◌, Bool, true, not, ◌&&◌, ◌||◌, Option, none, some, List, [], ◌∷◌, map, ltb, take, filter,
  All, Text, count, ◌==◌,
}
use mini_agent_go.Prelude.Dict.{Dict, pushed}
use mini_agent_go.Infra.Table.{Table}
use mini_agent_go.Infra.Programs.{ProgramRow}
use mini_agent_go.Api.Dashboard.{block, Timeline, before, top_key}

abbrev pub IsOrdered : List ProgramRow → Type 0
IsOrdered [] = Unit
IsOrdered (r ∷ rs) = All (λ q. before r q ≡ true) rs × IsOrdered rs

-- Whether a program touches the time from `start` to `finish`: it does not start after it, and does
-- not end before it.
abbrev pub touches : ℕ → ℕ → ProgramRow → Bool
touches start finish r = not (ltb finish r.start_at || ltb r.end_at start)

-- Whether a program is of the channel that was asked for; none, or an empty one, asks for all.
abbrev pub is_of : Option Text → ProgramRow → Bool
is_of none r = true
is_of (some []) r = true
is_of (some (c ∷ v)) r = r.channel_id == c ∷ v

-- What a timeline shows of a list of rows.
pub record IsSchedule (start finish : ℕ) (channel : Option Text) (rows : List ProgramRow)
    (t : Timeline) : Type 0 where
  -- the rows of the window, in order
  pub shown : List ProgramRow
  pub ordered : IsOrdered shown
  pub window :
      (p : ProgramRow → Bool)
      → count p shown ≡ count (λ r. touches start finish r && is_of channel r && p r) rows
  -- under each name, all that are shown of that name, in order
  pub by_name :
      (name : Text)
      → pushed name t.programs_by_channel ≡ map block (filter (λ r. r.channel_name == name) shown)
  -- at most one channel is listed, the first that is shown
  pub placeholder : t.channels ≡ map top_key (take 1 shown)
