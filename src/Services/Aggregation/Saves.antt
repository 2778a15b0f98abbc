-- ===== src/Services/Aggregation/Saves.antt =====
-- What a crawl leaves in the program repository.
use mini_agent_go.Prelude.{
  ℕ, ◌+◌, ◌≡◌, refl, ap, ◌∙◌, inl, inr, Bool, true, false, Option, none, some, List, [], ◌∷◌, map,
  arith, if◌then◌else◌, Bool-cases, length, Text, is_empty, some_text, Outcome, ok, err,
}
use mini_agent_go.Prelude.Dict.{Dict}
use mini_agent_go.Core.Exceptions.{Exn}
use mini_agent_go.Domain.Models.{Json, TvProgram, TvListSource}
use mini_agent_go.Infra.Http.{FetchResult}
use mini_agent_go.Infra.Table.{Table}
use mini_agent_go.Infra.Programs.{ProgramRow, ProgramColumn, program_cell, upsert}
use mini_agent_go.Infra.Programs.Upsert.{upsert-rolled_back}
use mini_agent_go.Domain.Dedup.{merge}
use mini_agent_go.Services.Checks.{headers_or_none}
use mini_agent_go.Infra.Jobs.{JobRow, JobColumn, job_cell}
use mini_agent_go.Services.Aggregation.{
  Factory, save_all, Crawl, Tried, after_leave, saved_by, kept, saved_one, fetched, parsed, save,
  in_session, try_once, stopped, apply_norm, blocked, has_worked,
}

module _ {W : Type 0} (fetch : Text → Option (Dict Text) → W → Outcome Exn FetchResult × W)
    (parse : Text → Text → W → Outcome Exn (List TvProgram) × W) (new_id : W → Text) (now : W → ℕ)
    (repr : Json → Text) (programs : Table ProgramRow ProgramColumn program_cell)
    (jobs : Table JobRow JobColumn job_cell) where
  -- two states with the same rows and the same session
  abbrev pub IsSameSession :
      Crawl fetch parse new_id now repr programs jobs
      → Crawl fetch parse new_id now repr programs jobs
      → Type 0
  IsSameSession t t' =
      (t'.program_rows ≡ t.program_rows) × (t'.job_rows ≡ t.job_rows) × (t'.active ≡ t.active)

  -- The session that a factory opens is another one than that of the repositories, and does nothing of
  -- its own: what they have pending is neither committed nor rolled back with it.
  pub record IsIsolated (f : Factory (Crawl fetch parse new_id now repr programs jobs))
      : Type 0 where
    pub entered :
        (t : Crawl fetch parse new_id now repr programs jobs) → IsSameSession t (f.enter t).1
    pub left :
        (b : Bool) (t : Crawl fetch parse new_id now repr programs jobs)
        → IsSameSession t (f.leave b t).1

  abbrev pub AreIsolated :
      Option (Factory (Crawl fetch parse new_id now repr programs jobs)) → Type 0
  AreIsolated factory =
      (f : Factory (Crawl fetch parse new_id now repr programs jobs))
      → factory ≡ some f
      → IsIsolated f

  -- a loop over `ps` that has counted `n` leaves alone what is committed, leaves nothing else if it is
  -- refused, and counts all if it is not
  abbrev pub IsSaved :
      List TvProgram → ℕ → programs.Store → Outcome Exn (Unit {0}) × (ℕ × programs.Store) → Type 0
  IsSaved ps n st x =
      (programs.rolled_back x.1.1 ≡ programs.rolled_back st)
      × ((e : Exn) → x.0 ≡ err e → x.1.1 ≡ programs.rolled_back st)
      × (x.0 ≡ ok tt → x.1.0 ≡ n + length ps)

  pub save_all-IsSaved :
      (at : ℕ) (ps : List TvProgram) (n : ℕ) (st : programs.Store)
      → IsSaved ps n st (save_all fetch parse new_id now repr programs jobs at ps n st)
  unfolding save_all
  save_all-IsSaved at [] n st = (refl, (λ e h. cc), λ h. omega arith)
  save_all-IsSaved at (p ∷ ps) n st =
      step (save_all-IsSaved at ps (n + 1)) (upsert repr programs at p st)
        (upsert-rolled_back repr programs at p st)
    where
      step :
          ((q : programs.Store)
            → IsSaved ps
                (n + 1)
                q
                (save_all fetch parse new_id now repr programs jobs at ps (n + 1) q))
          → (x : Outcome Exn TvProgram × programs.Store)
          → (programs.rolled_back x.1 ≡ programs.rolled_back st)
            × ((e : Exn) → x.0 ≡ err e → x.1 ≡ programs.rolled_back st)
          → IsSaved (p ∷ ps) n st (
              saved_one fetch parse new_id now repr programs jobs
                (save_all fetch parse new_id now repr programs jobs at ps)
                n
                x)
      step rest (err e, q) (base, back) = unfold saved_one in (base, (λ x h. back e refl), λ h. cc)
      step rest (ok v, q) (base, back) =
          let (base', back', whole) = rest q in
          unfold saved_one in (base' ∙ base, (λ e h. back' e h ∙ base), λ h. omega (arith, whole h))

  -- What a trial leaves of the rows `ps` and `js`, by whether the session still takes statements: the
  -- jobs, and all that was saved is counted; or what is committed and no more.
  abbrev pub IsHeld :
      programs.Store → jobs.Store → Tried fetch parse new_id now repr programs jobs → Bool → Type 0
  IsHeld ps js r true = (r.state.job_rows ≡ js) × ((n : ℕ) → r.outcome ≡ ok n → r.saved ≡ n)
  IsHeld ps js r false =
      (r.state.program_rows ≡ programs.rolled_back ps) × (r.state.job_rows ≡ jobs.rolled_back js)

  pub record IsTried (ps : programs.Store) (js : jobs.Store)
      (r : Tried fetch parse new_id now repr programs jobs) : Type 0 where
    pub programs_base : programs.rolled_back r.state.program_rows ≡ programs.rolled_back ps
    pub jobs_base : jobs.rolled_back r.state.job_rows ≡ jobs.rolled_back js
    pub held : IsHeld ps js r r.state.active

  -- the rows and the session of a state, which takes statements
  abbrev IsAt :
      programs.Store → jobs.Store → Crawl fetch parse new_id now repr programs jobs → Type 0
  IsAt ps js t = (t.program_rows ≡ ps) × (t.job_rows ≡ js) × (t.active ≡ true)

  stopped-IsTried :
      (ps : programs.Store) (js : jobs.Store) (e : Exn)
      (t : Crawl fetch parse new_id now repr programs jobs)
      → IsAt ps js t
      → IsTried ps js (stopped fetch parse new_id now repr programs jobs e 0 t)
  unfolding stopped
  stopped-IsTried ps js e t (p, j, a) = record {
    programs_base = ap programs.rolled_back p;
    jobs_base = ap jobs.rolled_back j;
    held = rw a (j, λ n h. cc);
  }

  kept-IsTried :
      (ps : programs.Store) (js : jobs.Store) (l : List TvProgram)
      (t : Crawl fetch parse new_id now repr programs jobs)
      (x : Outcome Exn (Unit {0}) × (ℕ × programs.Store))
      → IsAt ps js t
      → IsSaved l 0 t.program_rows x
      → IsTried ps js (kept fetch parse new_id now repr programs jobs (length l) t x)
  unfolding kept
  kept-IsTried ps js l t (ok u, (m, q)) (p, j, a) (base, back, whole) = record {
    programs_base = base ∙ ap programs.rolled_back p;
    jobs_base = ap jobs.rolled_back j;
    held = rw a (j, λ n h. ground (arith, h, whole refl));
  }
  kept-IsTried ps js l t (err e, (m, q)) (p, j, a) (base, back, whole) = record {
    programs_base = base ∙ ap programs.rolled_back p;
    jobs_base = jobs.rolled_back_idem t.job_rows ∙ ap jobs.rolled_back j;
    held = (back e refl ∙ ap programs.rolled_back p, ap jobs.rolled_back j);
  }

  -- in a session that takes statements the loop runs
  pub saved_by-active :
      (l : List TvProgram) (t : Crawl fetch parse new_id now repr programs jobs)
      → t.active ≡ true
      → saved_by fetch parse new_id now repr programs jobs l t
        ≡ kept fetch parse new_id now repr programs jobs
            (length l)
            t
            (save_all fetch parse new_id now repr programs jobs (now t.world) l 0 t.program_rows)
  unfolding saved_by
  saved_by-active l t a = go t.active a
    where
      done : Tried fetch parse new_id now repr programs jobs
      done =
          kept fetch parse new_id now repr programs jobs (length l) t
            (save_all fetch parse new_id now repr programs jobs (now t.world) l 0 t.program_rows)

      go :
          (b : Bool)
          → b ≡ true
          → (if b then done else blocked fetch parse new_id now repr programs jobs l t) ≡ done
      go true h = refl
      go false h = absurd (ground (arith, h))

  saved_by-IsTried :
      (ps : programs.Store) (js : jobs.Store) (l : List TvProgram)
      (t : Crawl fetch parse new_id now repr programs jobs)
      → IsAt ps js t
      → IsTried ps js (saved_by fetch parse new_id now repr programs jobs l t)
  saved_by-IsTried ps js l t (p, j, a) = rw (saved_by-active l t a) (
      kept-IsTried ps js l t
        (save_all fetch parse new_id now repr programs jobs (now t.world) l 0 t.program_rows)
        (p, j, a) (save_all-IsSaved (now t.world) l 0 t.program_rows))

  after_leave-IsTried :
      (ps : programs.Store) (js : jobs.Store) (r : Tried fetch parse new_id now repr programs jobs)
      (x : Outcome Exn (Unit {0}) × Crawl fetch parse new_id now repr programs jobs)
      → IsTried ps js r
      → IsSameSession r.state x.1
      → IsTried ps js (after_leave fetch parse new_id now repr programs jobs r x)
  unfolding after_leave
  after_leave-IsTried ps js r (ok v, t) h (p, j, a) = record {
    programs_base = ap programs.rolled_back p ∙ h.programs_base;
    jobs_base = ap jobs.rolled_back j ∙ h.jobs_base;
    held = rw a (held r.state.active h.held);
  }
    where
      held : (b : Bool) → IsHeld ps js r b → IsHeld ps js (record r { state = t }) b
      held true (k, n) = (j ∙ k, n)
      held false (k, n) = (p ∙ k, j ∙ n)
  after_leave-IsTried ps js r (err e, t) h (p, j, a) = record {
    programs_base = ap programs.rolled_back p ∙ h.programs_base;
    jobs_base = ap jobs.rolled_back j ∙ h.jobs_base;
    held = rw a (held r.state.active h.held);
  }
    where
      held :
          (b : Bool) → IsHeld ps js r b → IsHeld ps js (record r { outcome = err e; state = t }) b
      held true (k, n) = (j ∙ k, λ m i. cc)
      held false (k, n) = (p ∙ k, j ∙ n)

  in_session-IsTried :
      (ps : programs.Store) (js : jobs.Store)
      (f : Factory (Crawl fetch parse new_id now repr programs jobs)) (l : List TvProgram)
      (x : Outcome Exn (Unit {0}) × Crawl fetch parse new_id now repr programs jobs)
      → IsIsolated f
      → IsAt ps js x.1
      → IsTried ps js (in_session fetch parse new_id now repr programs jobs f l x)
  unfolding in_session
  in_session-IsTried ps js f l (err e, t) i h = stopped-IsTried ps js e t h
  in_session-IsTried ps js f l (ok u, t) i h =
      let r = saved_by fetch parse new_id now repr programs jobs l t in
      after_leave-IsTried ps js r
        (f.leave (has_worked fetch parse new_id now repr programs jobs r) r.state)
        (saved_by-IsTried ps js l t h)
        (i.left (has_worked fetch parse new_id now repr programs jobs r) r.state)

  save-IsTried :
      (ps : programs.Store) (js : jobs.Store)
      (factory : Option (Factory (Crawl fetch parse new_id now repr programs jobs)))
      (l : List TvProgram) (t : Crawl fetch parse new_id now repr programs jobs)
      → AreIsolated factory
      → IsAt ps js t
      → IsTried ps js (save fetch parse new_id now repr programs jobs factory l t)
  unfolding save
  save-IsTried ps js none l t i h = saved_by-IsTried ps js l t h
  save-IsTried ps js (some f) l t i (p, j, a) =
      let (p', j', a') = (i f refl).entered t in
      in_session-IsTried ps js f l (f.enter t) (i f refl) (p' ∙ p, j' ∙ j, a' ∙ a)

  parsed-IsTried :
      (ps : programs.Store) (js : jobs.Store)
      (factory : Option (Factory (Crawl fetch parse new_id now repr programs jobs)))
      (t : Crawl fetch parse new_id now repr programs jobs) (x : Outcome Exn (List TvProgram) × W)
      → AreIsolated factory
      → IsAt ps js t
      → IsTried ps js (parsed fetch parse new_id now repr programs jobs factory t x)
  unfolding parsed
  parsed-IsTried ps js factory t (err e, w) i h = stopped-IsTried ps js e (record t { world = w }) h
  parsed-IsTried ps js factory t (ok l, w) i h =
      save-IsTried ps js factory (merge (map apply_norm l)) (record t { world = w }) i h

  fetched-IsTried :
      (ps : programs.Store) (js : jobs.Store)
      (factory : Option (Factory (Crawl fetch parse new_id now repr programs jobs)))
      (s : TvListSource) (t : Crawl fetch parse new_id now repr programs jobs)
      (x : Outcome Exn FetchResult × W)
      → AreIsolated factory
      → IsAt ps js t
      → IsTried ps js (fetched fetch parse new_id now repr programs jobs factory s t x)
  unfolding fetched
  fetched-IsTried ps js factory s t (err e, w) i h =
      stopped-IsTried ps js e (record t { world = w }) h
  fetched-IsTried ps js factory s t (ok r, w) i h =
      parsed-IsTried ps js factory t (parse r.body s.id w) i h

  pub try_once-IsTried :
      (factory : Option (Factory (Crawl fetch parse new_id now repr programs jobs)))
      (s : TvListSource) (t : Crawl fetch parse new_id now repr programs jobs)
      → AreIsolated factory
      → t.active ≡ true
      → IsTried t.program_rows t.job_rows
          (try_once fetch parse new_id now repr programs jobs factory s t)
  unfolding try_once
  try_once-IsTried factory s t i a = elim (Bool-cases (is_empty (some_text s.url))) [
    | inl h ↦ rw h (stopped-IsTried t.program_rows t.job_rows _ t (refl, refl, a))
    | inr h ↦ rw h (
        fetched-IsTried t.program_rows t.job_rows factory s t
          (fetch (some_text s.url) (headers_or_none s.headers) t.world) i (refl, refl, a))
  ]
