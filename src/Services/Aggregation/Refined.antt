-- ===== src/Services/Aggregation/Refined.antt =====
-- What a crawl does to the catalogue of programs.
use mini_agent_go.Prelude.{
  ℕ, suc, ◌+◌, ◌≡◌, refl, sym, ap, ◌∙◌, Bool, true, false, Option, none, some, List, [], ◌∷◌, ◌++◌,
  map, arith, if◌then◌else◌, length, take, Text, is_empty, some_text, Outcome, ok, err,
}
use mini_agent_go.Prelude.Dict.{Dict}
use mini_agent_go.Core.Exceptions.{Exn, integrity}
use mini_agent_go.Domain.Models.{Json, TvProgram, TvListSource}
use mini_agent_go.Infra.Http.{FetchResult}
use mini_agent_go.Infra.Table.{Table}
use mini_agent_go.Infra.Programs.{ProgramRow, ProgramColumn, program_cell, upsert}
use mini_agent_go.Infra.Programs.Catalogue.{
  Catalogue, view, enter_program, enter_all, IsEntered, upsert-IsEntered,
}
use mini_agent_go.Infra.Jobs.{JobRow, JobColumn, job_cell}
use mini_agent_go.Services.Checks.{headers_or_none}
use mini_agent_go.Domain.Dedup.{merge}
use mini_agent_go.Infra.Jobs.{by_id, new_row, add}
use mini_agent_go.Infra.Jobs.Updates.{find-update-add}
use mini_agent_go.Services.Aggregation.Records.{find-written, added-active}
use mini_agent_go.Services.Aggregation.Saves.{saved_by-active, save_all-IsSaved, IsSaved}
use mini_agent_go.Infra.Programs.Upsert.{upsert-rolled_back}
use mini_agent_go.Domain.Models.{CrawlJob}
use mini_agent_go.Services.Aggregation.{
  Crawl, Tried, needs_rollback, save_all, saved_one, run_once, begun, try_once, fetched, parsed,
  save, kept, finish_tried, finish, written, succeeded, new_job, apply_norm,
}

-- The first of `ps` that the database refuses: it has a new identity key, after those before it.
pub record IsRefused (at : ℕ) (ps : List TvProgram) (c : Catalogue) : Type 0 where
  pub k : ℕ
  pub program : TvProgram
  pub rest : List TvProgram
  pub split : ps ≡ take k ps ++ program ∷ rest
  pub is_new : enter_all at (take k ps) c program.identity_key ≡ none

-- A loop over `ps`, `n` counted before it, has entered all of them into `c` and counted them; or it
-- stopped at one that was refused, and the catalogue is `back`, the committed one.
abbrev pub AreEntered :
    ℕ → List TvProgram → ℕ → Catalogue → Catalogue → Outcome Exn (Unit {0}) → ℕ → Catalogue → Type 0
AreEntered at ps n c back (ok u) saved c' = (saved ≡ n + length ps) × (c' ≡ enter_all at ps c)
AreEntered at ps n c back (err e) saved c' = (e.cls ≡ integrity) × IsRefused at ps c × (c' ≡ back)

one_more :
    (at : ℕ) (p : TvProgram) (ps : List TvProgram) (n : ℕ) (c d back back' : Catalogue)
    → d ≡ enter_program at p c
    → back' ≡ back
    → (r : Outcome Exn (Unit {0})) (saved : ℕ) (c' : Catalogue)
    → AreEntered at ps (n + 1) d back' r saved c'
    → AreEntered at (p ∷ ps) n c back r saved c'
unfolding enter_all
one_more at p ps n c d back back' same b (ok u) saved c' (counted, entered) =
    (omega (arith, counted), entered ∙ ap (enter_all at ps) same)
one_more at p ps n c d back back' same b (err e) saved c' (i, h, entered) = (
  i,
  record {
    k = suc h.k;
    program = h.program;
    rest = h.rest;
    split = ap (λ (l : List TvProgram). p ∷ l) h.split;
    is_new =
        ap (λ (l : Catalogue). enter_all at (take h.k ps) l h.program.identity_key) (sym same)
        ∙ h.is_new;
  },
  entered ∙ b,
)

module _ {W : Type 0} (fetch : Text → Option (Dict Text) → W → Outcome Exn FetchResult × W)
    (parse : Text → Text → W → Outcome Exn (List TvProgram) × W) (new_id : W → Text) (now : W → ℕ)
    (repr : Json → Text) (programs : Table ProgramRow ProgramColumn program_cell)
    (jobs : Table JobRow JobColumn job_cell) where
  save_first :
      (at : ℕ) (p : TvProgram) (ps : List TvProgram) (n : ℕ) (st : programs.Store)
      (next : ℕ → programs.Store → Outcome Exn (Unit {0}) × (ℕ × programs.Store))
      (x : Outcome Exn TvProgram × programs.Store)
      → ((q : programs.Store)
          → let (r, (saved, st')) = next (n + 1) q in
            AreEntered at ps
              (n + 1)
              (view repr programs q)
              (view repr programs (programs.rolled_back q))
              r
              saved
              (view repr programs st'))
      → programs.rolled_back x.1 ≡ programs.rolled_back st
      → IsEntered at p
          (view repr programs st)
          (view repr programs (programs.rolled_back st))
          x.0
          (view repr programs x.1)
      → let (r, (saved, st')) = saved_one fetch parse new_id now repr programs jobs next n x in
        AreEntered at
          (p ∷ ps)
          n
          (view repr programs st)
          (view repr programs (programs.rolled_back st))
          r
          saved
          (view repr programs st')
  unfolding saved_one IsEntered enter_all
  save_first at p ps n st next (err e, q) rest base (i, new, same) =
      (i, record { k = 0; program = p; rest = ps; split = refl; is_new = new }, same)
  save_first at p ps n st next (ok v, q) rest base (v_eq, same) =
      one_more at p ps n (view repr programs st) (view repr programs q) _ _ same
        (ap (view repr programs) base) _ _ _ (rest q)

  -- The loop of `run_once` over the programs enters all of them in the catalogue, and counts them,
  -- or it is stopped by one that is new and refused, and the session has what is committed.
  pub save_all-AreEntered :
      (at : ℕ) (ps : List TvProgram) (n : ℕ) (st : programs.Store)
      → let (r, (saved, st')) = save_all fetch parse new_id now repr programs jobs at ps n st in
        AreEntered at ps n
          (view repr programs st)
          (view repr programs (programs.rolled_back st))
          r
          saved
          (view repr programs st')
  unfolding save_all enter_all
  save_all-AreEntered at [] n st = (omega arith, refl)
  save_all-AreEntered at (p ∷ ps) n st =
      save_first at p ps n st (save_all fetch parse new_id now repr programs jobs at ps)
        (upsert repr programs at p st) (λ q. save_all-AreEntered at ps (n + 1) q)
        (upsert-rolled_back repr programs at p st).0 (upsert-IsEntered repr programs at p st)

  -- A crawl from `t` that found `ps` at the time `at`: all are entered in the catalogue, and its job
  -- is stored with their number; or one was refused, the crawl raises the error of the session, and
  -- both repositories are back at what was committed before.
  abbrev pub IsCrawled :
      Text
      → ℕ
      → List TvProgram
      → Crawl fetch parse new_id now repr programs jobs
      → Outcome Exn CrawlJob × Crawl fetch parse new_id now repr programs jobs
      → Type 0
  IsCrawled id at ps t (ok job, t') =
      (view repr programs t'.program_rows ≡ enter_all at ps (view repr programs t.program_rows))
      × (jobs.find by_id id t'.job_rows ≡ some (new_row job))
      × (job.items_saved ≡ length ps)
  IsCrawled id at ps t (err e, t') =
      (e ≡ needs_rollback)
      × IsRefused at ps (view repr programs t.program_rows)
      × (t'.program_rows ≡ programs.rolled_back t.program_rows)
      × (t'.job_rows ≡ jobs.rolled_back t.job_rows)
      × (t'.active ≡ false)

  finish_tried-active :
      (job : CrawlJob) (r : Tried fetch parse new_id now repr programs jobs)
      → r.state.active ≡ true
      → finish_tried fetch parse new_id now repr programs jobs job r
        ≡ finish fetch parse new_id now repr programs jobs job r.outcome r.saved r.state
  unfolding finish_tried
  finish_tried-active job r a = go r.state.active a
    where
      done : Outcome Exn CrawlJob × Crawl fetch parse new_id now repr programs jobs
      done = finish fetch parse new_id now repr programs jobs job r.outcome r.saved r.state

      go : (b : Bool) → b ≡ true → (if b then done else (err needs_rollback, r.state)) ≡ done
      go true h = refl
      go false h = absurd (ground (arith, h))

  finish-IsCrawled :
      (s : TvListSource) (id : Text) (started at : ℕ) (ps : List TvProgram)
      (t t' : Crawl fetch parse new_id now repr programs jobs)
      (x : Outcome Exn (Unit {0}) × (ℕ × programs.Store))
      → jobs.find by_id id t.job_rows ≡ none
      → add jobs (new_job id started s) t.job_rows ≡ ok t'.job_rows
      → t'.active ≡ true
      → IsSaved fetch parse new_id now repr programs jobs ps 0 t.program_rows x
      → AreEntered at ps 0
          (view repr programs t.program_rows)
          (view repr programs (programs.rolled_back t.program_rows))
          x.0
          x.1.0
          (view repr programs x.1.1)
      → IsCrawled id at ps t (
          finish_tried fetch parse new_id now repr programs jobs
            (new_job id started s)
            (kept fetch parse new_id now repr programs jobs (length ps) t' x))
  unfolding kept finish finish_tried written
  finish-IsCrawled s id started at ps t t' (ok u, (saved, q)) fresh put a base (counted, entered) =
      let job = new_job id started s in
      let job' =
        succeeded fetch parse new_id now repr programs jobs job (length ps) saved (now t'.world) in
      let r = kept fetch parse new_id now repr programs jobs (length ps) t' (ok u, (saved, q)) in
      rw (finish_tried-active job r a) (
        entered,
        (unfold new_job succeeded in
            find-written fetch parse new_id now repr programs jobs job job' t.job_rows t'.job_rows
              fresh put refl refl refl),
        (unfold succeeded in omega (arith, counted)),
      )
  finish-IsCrawled s id started at ps t t' (err e, (saved, q)) fresh put a (base, back, whole)
        (i, h, same) =
      (
        refl,
        h,
        back e refl,
        (unfold add in
            jobs.rolled_back-insert (new_row (new_job id started s)) t.job_rows t'.job_rows put),
        refl,
      )

  -- A crawl whose fetch and parse succeed, without a session factory, from a session that takes
  -- statements and with a new id for the job, is all or nothing: it enters every program, normalised
  -- and merged, in the catalogue, and its job is stored with their number; or the database refuses a
  -- program with a new identity key, the crawl raises the error of the session, and programs and jobs
  -- are back at what was committed before.
  pub run_once-IsCrawled :
      (s : TvListSource) (t : Crawl fetch parse new_id now repr programs jobs) (page : FetchResult)
      (ps : List TvProgram) (w w' : W)
      → is_empty (some_text s.url) ≡ false
      → t.active ≡ true
      → jobs.find by_id (new_id t.world) t.job_rows ≡ none
      → fetch (some_text s.url) (headers_or_none s.headers) t.world ≡ (ok page, w)
      → parse page.body s.id w ≡ (ok ps, w')
      → IsCrawled
          (new_id t.world)
          (now w')
          (merge (map apply_norm ps))
          t
          (run_once fetch parse new_id now repr programs jobs none s t)
  unfolding run_once begun try_once fetched parsed save
  run_once-IsCrawled s t page ps w w' url a fresh f p =
      let job = new_job (new_id t.world) (now t.world) s in
      let (js, put, found) =
        find-update-add jobs job job t.job_rows (unfold new_job in fresh) refl refl refl in
      let t' = record t { job_rows = js; world = w' } in
      let l = merge (map apply_norm ps) in
      rw
        (
          added-active fetch parse new_id now repr programs jobs job t a,
          put,
          url,
          f,
          p,
          saved_by-active fetch parse new_id now repr programs jobs l t' a,
        )
        (finish-IsCrawled s (new_id t.world) (now t.world) (now w') l t t'
          (save_all fetch parse new_id now repr programs jobs (now w') l 0 t.program_rows) fresh put
          a (save_all-IsSaved fetch parse new_id now repr programs jobs (now w') l 0 t.program_rows)
          (save_all-AreEntered (now w') l 0 t.program_rows))
