-- ===== src/Infra/Schema/Revision.antt =====
-- tv-list-aggregator/alembic/versions/197491bccd3f_initial_schema.py.
use mini_agent_go.Prelude.{true, false, List, [], ◌∷◌, codes}
use mini_agent_go.Infra.Schema.{
  string, text, date_time, json, integer, boolean, column, Op, create_table, create_index,
  drop_index, drop_table,
}

-- `upgrade`
unfoldable pub upgrade : List Op
upgrade =
    create_table (codes "jobs")
      (column (codes "id") (string 64) false
        ∷ column (codes "source_id") (string 64) false
        ∷ column (codes "status") (string 16) false
        ∷ column (codes "started_at") date_time false
        ∷ column (codes "finished_at") date_time true
        ∷ column (codes "items_fetched") integer false
        ∷ column (codes "items_saved") integer false
        ∷ column (codes "error") text true
        ∷ column (codes "trace_id") (string 64) true
        ∷ [])
      (codes "id")
    ∷ create_index (codes "ix_jobs_source_id") (codes "jobs") (codes "source_id" ∷ []) false
    ∷ create_index (codes "ix_jobs_started_at") (codes "jobs") (codes "started_at" ∷ []) false
    ∷ create_index (codes "ix_jobs_status") (codes "jobs") (codes "status" ∷ []) false
    ∷ create_table (codes "programs")
        (column (codes "id") (string 64) false
          ∷ column (codes "title") (string 512) false
          ∷ column (codes "description") text true
          ∷ column (codes "channel_id") (string 64) false
          ∷ column (codes "channel_name") (string 255) false
          ∷ column (codes "channel_logo") (string 2048) true
          ∷ column (codes "channel_country") (string 8) true
          ∷ column (codes "channel_language") (string 16) true
          ∷ column (codes "start_at") date_time false
          ∷ column (codes "end_at") date_time false
          ∷ column (codes "timezone") (string 64) false
          ∷ column (codes "tags") json false
          ∷ column (codes "source_ids") json false
          ∷ column (codes "identity_key") (string 128) false
          ∷ column (codes "version") integer false
          ∷ column (codes "created_at") date_time false
          ∷ column (codes "updated_at") date_time false
          ∷ [])
        (codes "id")
    ∷ create_index (codes "ix_prog_channel_start") (codes "programs")
        (codes "channel_id" ∷ codes "start_at" ∷ []) false
    ∷ create_index (codes "ix_programs_channel_id") (codes "programs") (codes "channel_id" ∷ [])
        false
    ∷ create_index (codes "ix_programs_identity_key") (codes "programs") (codes "identity_key" ∷ [])
        true
    ∷ create_index (codes "ix_programs_start_at") (codes "programs") (codes "start_at" ∷ []) false
    ∷ create_index (codes "ix_programs_title") (codes "programs") (codes "title" ∷ []) false
    ∷ create_table (codes "source_health")
        (column (codes "source_id") (string 64) false
          ∷ column (codes "fail_streak") integer false
          ∷ column (codes "last_check_at") date_time true
          ∷ column (codes "last_message") text true
          ∷ [])
        (codes "source_id")
    ∷ create_table (codes "sources")
        (column (codes "id") (string 64) false
          ∷ column (codes "name") (string 255) false
          ∷ column (codes "type") (string 32) false
          ∷ column (codes "url") (string 2048) true
          ∷ column (codes "config") json false
          ∷ column (codes "headers") json false
          ∷ column (codes "cron") (string 64) false
          ∷ column (codes "priority") integer false
          ∷ column (codes "status") (string 16) false
          ∷ column (codes "parser") (string 64) false
          ∷ column (codes "created_at") date_time false
          ∷ column (codes "updated_at") date_time false
          ∷ [])
        (codes "id")
    ∷ create_index (codes "ix_sources_status") (codes "sources") (codes "status" ∷ []) false
    ∷ create_index (codes "ix_sources_type") (codes "sources") (codes "type" ∷ []) false
    ∷ create_table (codes "users")
        (column (codes "id") (string 64) false
          ∷ column (codes "username") (string 64) false
          ∷ column (codes "password_hash") (string 255) false
          ∷ column (codes "role") (string 16) false
          ∷ column (codes "created_at") date_time false
          ∷ column (codes "disabled") boolean false
          ∷ [])
        (codes "id")
    ∷ create_index (codes "ix_users_username") (codes "users") (codes "username" ∷ []) true
    ∷ []

-- `downgrade`
unfoldable pub downgrade : List Op
downgrade =
    drop_index (codes "ix_users_username") (codes "users")
    ∷ drop_table (codes "users")
    ∷ drop_index (codes "ix_sources_type") (codes "sources")
    ∷ drop_index (codes "ix_sources_status") (codes "sources")
    ∷ drop_table (codes "sources")
    ∷ drop_table (codes "source_health")
    ∷ drop_index (codes "ix_programs_title") (codes "programs")
    ∷ drop_index (codes "ix_programs_start_at") (codes "programs")
    ∷ drop_index (codes "ix_programs_identity_key") (codes "programs")
    ∷ drop_index (codes "ix_programs_channel_id") (codes "programs")
    ∷ drop_index (codes "ix_prog_channel_start") (codes "programs")
    ∷ drop_table (codes "programs")
    ∷ drop_index (codes "ix_jobs_status") (codes "jobs")
    ∷ drop_index (codes "ix_jobs_started_at") (codes "jobs")
    ∷ drop_index (codes "ix_jobs_source_id") (codes "jobs")
    ∷ drop_table (codes "jobs")
    ∷ []
