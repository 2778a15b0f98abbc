-- ===== src/Infra/Jobs.antt =====
-- infrastructure/persistence/job_repository_impl.py and `JobRow` of models.py.
pub mod Updates
pub mod Listing
use mini_agent_go.Prelude.{
  ℕ, zero, suc, ◌+◌, ◌-◌, ◌*◌, ◌/◌, ◌%◌, ◌≤◌, ◌<◌, ◌≡◌, refl, sym, ap, ◌∙◌, ◌≢◌, ◌↔◌, ◌⊎◌, inl, inr,
  Bool, true, false, not, ◌&&◌, ◌||◌, Option, none, some, List, [], ◌∷◌, ◌++◌, map, arith, ltb, leb,
  eqb, if◌then◌else◌, eqb_iff, Bool-cases, Option-cases, is_some, get_or, length, take, filter, all,
  find, All, length-append, length-filter, length-take, length-map, All-append, Text, codes,
  empty_text, is_empty, or_text, some_text, all_text, ◌==◌, decimal, eq_iff, eq_refl, eq-false,
  eq_sym, Outcome, ok, err, ◌>>=◌, >>=-eq-ok,
}
use mini_agent_go.Core.Exceptions.{Exn, raise, value_error}
use mini_agent_go.Domain.Models.{CrawlJob, JobStatus, job_value, to_job_status}
use mini_agent_go.Infra.Table.{Table}

pub record JobRow : Type 0 where
  pub id : Text
  pub source_id : Text
  pub status : Text
  pub started_at : ℕ
  pub finished_at : Option ℕ
  pub items_fetched : ℕ
  pub items_saved : ℕ
  pub error : Option Text
  pub trace_id : Option Text

pub data JobColumn : Type 0 where
  by_id : JobColumn

abbrev pub job_cell : JobColumn → JobRow → Text
job_cell by_id r = r.id

made : JobRow → Option JobStatus → Outcome Exn CrawlJob
made r none = raise value_error r.status
made r (some st) = ok (record {
  id = r.id;
  source_id = r.source_id;
  status = st;
  started_at = r.started_at;
  finished_at = r.finished_at;
  items_fetched = r.items_fetched;
  items_saved = r.items_saved;
  error = r.error;
  trace_id = r.trace_id;
})

-- `_to_domain`
unfoldable pub to_domain : JobRow → Outcome Exn CrawlJob
unfolding made
to_domain r = made r (to_job_status r.status)

-- the row that `add` makes
unfoldable pub new_row : CrawlJob → JobRow
new_row job = record {
  id = job.id;
  source_id = job.source_id;
  status = job_value job.status;
  started_at = job.started_at;
  finished_at = job.finished_at;
  items_fetched = job.items_fetched;
  items_saved = job.items_saved;
  error = job.error;
  trace_id = job.trace_id;
}

-- what `update` assigns
unfoldable pub overwrite : CrawlJob → JobRow → JobRow
overwrite job r = record r {
  status = job_value job.status;
  finished_at = job.finished_at;
  items_fetched = job.items_fetched;
  items_saved = job.items_saved;
  error = job.error;
  trace_id = job.trace_id;
}

unfoldable pub to_domains : List JobRow → Outcome Exn (List CrawlJob)
unfolding to_domain
to_domains [] = ok []
to_domains (r ∷ rs) = do job ← to_domain r; jobs ← to_domains rs; ok (job ∷ jobs)

-- `order_by(started_at.desc())`; rows that started together keep the order of the table
unfoldable pub put_row : JobRow → List JobRow → List JobRow
put_row r [] = r ∷ []
put_row r (q ∷ qs) =
    let rest = put_row r qs in if leb q.started_at r.started_at then r ∷ q ∷ qs else q ∷ rest

unfoldable pub latest_first : List JobRow → List JobRow
unfolding put_row
latest_first [] = []
latest_first (r ∷ rs) = put_row r (latest_first rs)

abbrev has_status : Option JobStatus → JobRow → Bool
has_status none r = true
has_status (some st) r = r.status == job_value st

-- the conditions of `list`; an empty `source_id` is none
unfoldable pub is_asked : Option Text → Option JobStatus → JobRow → Bool
is_asked source_id status r =
    (is_empty (some_text source_id) || (r.source_id == some_text source_id)) && has_status status r

module _ (table : Table JobRow JobColumn job_cell) where
  open table use {Store, find, rows, insert, update as flush_update}

  unfoldable pub add : CrawlJob → Store → Outcome Exn Store
  add job st = insert (new_row job) st

  update_row : CrawlJob → Store → Option JobRow → Store
  update_row job st none = st
  update_row job st (some r) = flush_update r (overwrite job r) st

  unfoldable pub update : CrawlJob → Store → Store
  unfolding update_row
  update job st = update_row job st (find by_id job.id st)

  unfoldable pub list : Option Text → Option JobStatus → ℕ → Store → Outcome Exn (List CrawlJob)
  unfolding to_domains latest_first is_asked
  list source_id status limit st =
      to_domains (take limit (latest_first (filter (is_asked source_id status) (rows st))))
