-- ===== src/Infra/Jobs/Updates.antt =====
-- What the job repository finds after `add` and `update`.
use mini_agent_go.Prelude.{◌≡◌, refl, ap, ◌∙◌, none, some, Option, Text, eq_refl, ok, Option}
use mini_agent_go.Domain.Models.{CrawlJob}
use mini_agent_go.Infra.Table.{Table}
use mini_agent_go.Infra.Jobs.{
  JobRow, JobColumn, job_cell, by_id, new_row, overwrite, add, update, update_row,
}

module _ (table : Table JobRow JobColumn job_cell) where
  open table use {Store, find, find-cell, find-update, insert-fresh}

  -- A job that is added under an unused id and then updated: its row is the one of the updated job,
  -- as long as the id, the source and the start are unchanged.
  pub find-update-add :
      (job job' : CrawlJob) (st : Store)
      → find by_id job.id st ≡ none
      → job'.id ≡ job.id
      → job'.source_id ≡ job.source_id
      → job'.started_at ≡ job.started_at
      → (st' : Store) × (add table job st ≡ ok st')
        × (find by_id job.id (update table job' st') ≡ some (new_row job'))
  unfolding add update new_row overwrite
  find-update-add job job' st h i s b =
      let (st', put, grown, found) =
        insert-fresh (new_row job) st
          (λ c. elim c as (λ d. find d (job_cell d (new_row job)) st ≡ none) [ by_id ↦ h ]) in
      let here : find by_id job.id st' ≡ some (new_row job) =
        found by_id job.id ∙ (rw (eq_refl job.id) refl) in
      let there : find by_id job'.id st' ≡ some (new_row job) =
        ap (λ (v : Text). find by_id v st') i ∙ here in
      (
        st',
        put,
        rw there (
            find-update by_id job.id (new_row job) (overwrite job' (new_row job)) st' here refl
            ∙ rw (eq_refl job.id, i, s, b) refl),
      )

-- an update writes in the session's transaction alone
pub update-rolled_back :
    (jobs : Table JobRow JobColumn job_cell) (job : CrawlJob) (st : jobs.Store)
    → jobs.rolled_back (update jobs job st) ≡ jobs.rolled_back st
unfolding update
update-rolled_back jobs job st = go (jobs.find by_id job.id st)
  where
    go : (o : Option JobRow) → jobs.rolled_back (update_row jobs job st o) ≡ jobs.rolled_back st
    go none = unfold update_row in refl
    go (some r) = unfold update_row in jobs.rolled_back-update r (overwrite job r) st
