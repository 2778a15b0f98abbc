-- ===== src/Tests/SchemaRuns.antt =====
-- Runs of the migration.
use mini_agent_go.Prelude.{◌≡◌, refl, All, ◌==◌, Outcome, ok, err}
use mini_agent_go.Core.Exceptions.{Exn}
use mini_agent_go.Infra.Schema.{run_all}
use mini_agent_go.Infra.Schema.Revision.{upgrade, downgrade}
use mini_agent_go.Infra.Schema.Metadata.{metadata}
use mini_agent_go.Infra.Schema.Memory.{Memory, empty_memory, memory, run, guarded, put}
use mini_agent_go.Infra.Schema.Migrated.{IsMade, upgrade-IsMade}

abbrev or_empty : Outcome Exn Memory → Memory
or_empty (ok w) = w
or_empty (err e) = empty_memory

abbrev migrated : Memory
migrated = or_empty (run_all memory upgrade empty_memory)

is_migrated : run_all memory upgrade empty_memory ≡ ok migrated
unfolding run_all run guarded put upgrade empty_memory ◌==◌
is_migrated = refl

upgrade-IsMade_example :
    All (IsMade memory migrated) metadata × (run_all memory downgrade migrated ≡ ok empty_memory)
upgrade-IsMade_example = upgrade-IsMade memory empty_memory migrated is_migrated
