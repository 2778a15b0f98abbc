-- ===== src/Api/Listings.antt =====
-- routers/programs.py, channels.py and jobs.py of interfaces/api, with their schemas, over the
-- committed tables.
use mini_agent_go.Prelude.{
  ℕ, Bool, true, false, ◌&&◌, Option, none, some, List, [], ◌∷◌, map, leb, if◌then◌else◌, Text,
  codes, ◌==◌, Outcome,
}
use mini_agent_go.Prelude.Groups.{Group, tally, largest_first}
use mini_agent_go.Core.Exceptions.{Exn, raise, http}
use mini_agent_go.Domain.Models.{Json, TvProgram, Tag, CrawlJob, JobStatus}
use mini_agent_go.Infra.Table.{Table}
use mini_agent_go.Infra.Programs.{ProgramRow, ProgramColumn, program_cell}
use mini_agent_go.Infra.Programs
use mini_agent_go.Infra.Jobs.{JobRow, JobColumn, job_cell}
use mini_agent_go.Infra.Jobs

-- schemas/program.py
pub record ProgramOut : Type 0 where
  pub id : Option Text
  pub title : Text
  pub description : Option Text
  pub channel_id : Text
  pub channel_name : Text
  pub start : ℕ
  pub finish : ℕ
  pub timezone : Text
  pub tags : List Tag
  pub source_ids : List Text
  pub version : ℕ

unfoldable pub program_out : TvProgram → ProgramOut
program_out p = record {
  id = p.id;
  title = p.title;
  description = p.description;
  channel_id = p.channel.id;
  channel_name = p.channel.name;
  start = p.slot.start;
  finish = p.slot.finish;
  timezone = p.slot.timezone;
  tags = p.tags;
  source_ids = p.source_ids;
  version = p.version;
}

-- schemas/channel.py; the columns of the `GROUP BY`, to which the number of programs comes
pub record ChannelKey : Type 0 where
  pub channel_id : Text
  pub channel_name : Text
  pub channel_country : Option Text
  pub channel_language : Option Text

unfoldable pub same_text : Option Text → Option Text → Bool
same_text none none = true
same_text none (some t) = false
same_text (some s) none = false
same_text (some s) (some t) = s == t

unfoldable pub same_channel : ChannelKey → ChannelKey → Bool
unfolding same_text
same_channel a b =
    (a.channel_id == b.channel_id)
    && ((a.channel_name == b.channel_name)
        && (same_text a.channel_country b.channel_country
            && same_text a.channel_language b.channel_language))

abbrev pub channel_key : ProgramRow → ChannelKey
channel_key r = record {
  channel_id = r.channel_id;
  channel_name = r.channel_name;
  channel_country = r.channel_country;
  channel_language = r.channel_language;
}

module _ (repr : Json → Text) (programs : Table ProgramRow ProgramColumn program_cell) where
  -- the loop over the programs
  unfoldable pub program_outs : List TvProgram → List ProgramOut
  program_outs [] = []
  program_outs (p ∷ ps) = program_out p ∷ program_outs ps

  -- `GET /programs`
  unfoldable pub list_programs : ℕ → ℕ → Option Text → programs.Store → List ProgramOut
  unfolding program_outs
  list_programs start finish channel_id st =
      program_outs (Programs.list_by_range repr programs start finish channel_id st)

  -- `GET /programs/count`
  unfoldable pub count_programs : programs.Store → ℕ
  count_programs st = Programs.count repr programs st

-- `GET /channels`; an item is a key with the number of its programs
unfoldable pub list_channels :
    (programs : Table ProgramRow ProgramColumn program_cell)
    → programs.Store
    → List (Group ChannelKey)
list_channels programs st = largest_first (tally same_channel (map channel_key (programs.rows st)))

-- `GET /jobs`; FastAPI checks the bounds of `limit`, and answers 422
unfoldable pub list_jobs :
    (jobs : Table JobRow JobColumn job_cell)
    → Option Text
    → Option JobStatus
    → ℕ
    → jobs.Store
    → Outcome Exn (List CrawlJob)
list_jobs jobs source_id status limit st =
    if leb 1 limit && leb limit 500
    then Jobs.list jobs source_id status limit st
    else raise (http 422) (codes "request validation failed")
