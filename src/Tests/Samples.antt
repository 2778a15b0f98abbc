-- ===== src/Tests/Samples.antt =====
-- Inputs that the runs share.
use mini_agent_go.Prelude.{
  ◌≡◌, ap, false, none, some, [], ◌∷◌, Text, codes, ◌==◌, eq_iff, Outcome, ok,
}
use mini_agent_go.Domain.Models.{Json, TvProgram, TvListSource, http_json, active}
use mini_agent_go.Infra.Table.{Table}
use mini_agent_go.Infra.Table.Log.{log_table, log_of}
use mini_agent_go.Infra.Programs.{ProgramRow, ProgramColumn, program_cell}
use mini_agent_go.Infra.Sources.{SourceRow, SourceColumn, source_cell}
use mini_agent_go.Infra.Health.{SourceHealthRow, HealthColumn, health_cell, by_source}
use mini_agent_go.Infra.Jobs.{JobRow, JobColumn, job_cell}
use mini_agent_go.Infra.Users.{UserRow, UserColumn, user_cell}
use mini_agent_go.Services.Auth.{Passwords}
use mini_agent_go.Domain.Models.{User}
use mini_agent_go.Infra.Table.Log.{Log}
use mini_agent_go.Core.Exceptions.{Exn}
use mini_agent_go.Infra.Programs as P
use mini_agent_go.Infra.Sources as S
use mini_agent_go.Infra.Jobs as J
use mini_agent_go.Infra.Users as U

abbrev pub news : TvProgram
news = record {
  id = none;
  title = codes "News";
  description = none;
  channel = record {
    id = codes "c1";
    name = codes "One";
    logo_url = none;
    country = none;
    language = none;
  };
  slot = record { start = 1000; finish = 2000; timezone = codes "UTC" };
  tags = record { label = codes "news"; category = codes "genre" } ∷ [];
  source_ids = codes "s1" ∷ [];
  identity_key = codes "k1";
  created_at = 1;
  updated_at = 1;
  version = 1;
}

-- the same program from another source, and another program
abbrev pub news_again : TvProgram
news_again = record news { source_ids = codes "s0" ∷ []; version = 3 }

abbrev pub film : TvProgram
film = record news { title = codes "Film"; identity_key = codes "k2" }

abbrev pub sample_source : TvListSource
sample_source = record {
  id = codes "s1";
  name = codes "Guide";
  type = http_json;
  url = some (codes "http://a/");
  config = [];
  headers = [];
  cron = codes "*/15 * * * *";
  priority = 5;
  status = active;
  parser = codes "auto";
  created_at = 1;
  updated_at = 1;
}

abbrev pub sample_repr : Json → Text
sample_repr v = codes "?"

abbrev pub program_table : Table ProgramRow ProgramColumn program_cell
program_table =
    log_table program_cell (P.by_id ∷ P.by_identity ∷ [])
      (λ Q h c. elim c as (λ k. Q k) [ P.by_id ↦ h.0 | P.by_identity ↦ h.1.0 ])

abbrev pub source_table : Table SourceRow SourceColumn source_cell
source_table =
    log_table source_cell (S.by_id ∷ []) (λ Q h c. elim c as (λ k. Q k) [ S.by_id ↦ h.0 ])

abbrev pub health_table : Table SourceHealthRow HealthColumn health_cell
health_table =
    log_table health_cell (by_source ∷ []) (λ Q h c. elim c as (λ k. Q k) [ by_source ↦ h.0 ])

abbrev pub job_table : Table JobRow JobColumn job_cell
job_table = log_table job_cell (J.by_id ∷ []) (λ Q h c. elim c as (λ k. Q k) [ J.by_id ↦ h.0 ])

abbrev pub user_table : Table UserRow UserColumn user_cell
user_table =
    log_table user_cell (U.by_id ∷ U.by_username ∷ [])
      (λ Q h c. elim c as (λ k. Q k) [ U.by_id ↦ h.0 | U.by_username ↦ h.1.0 ])

-- a scheme that keeps the password as it is
pub ok_injective : (a b : Text) → ◌≡◌ {A = Outcome Exn Text} (ok a) (ok b) → a ≡ b
ok_injective a b h = cc

abbrev pub plain_passwords : Passwords
plain_passwords = record {
  hash = λ t. ok t;
  verify = λ t h. ok (t == h);
  verify-hash = λ t h e. ap ok ((eq_iff t h).1 (ok_injective t h e));
}

abbrev pub admin : User
admin = record {
  id = codes "u1";
  username = codes "root";
  role = codes "admin";
  created_at = 3;
  disabled = false;
}

abbrev pub one_user : Log UserRow
one_user = log_of (
    record {
      id = codes "u1";
      username = codes "root";
      password_hash = codes "pw";
      role = codes "admin";
      created_at = 3;
      disabled = false;
    }
    ∷ [])
