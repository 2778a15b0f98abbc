-- ===== src/Infra/Health.antt =====
-- infrastructure/persistence/source_health_repository.py, with `SourceHealthRow` of models.py.
use mini_agent_go.Prelude.{
  ℕ, ◌+◌, ◌≡◌, refl, sym, ap, ◌∙◌, inl, inr, Bool, true, false, Option, none, some, List, [], ◌∷◌,
  if◌then◌else◌, Bool-cases, Text, codes, ◌==◌, eq_iff, Outcome, ok, err,
}
use mini_agent_go.Prelude.Dict.{Dict, insert}
use mini_agent_go.Core.Exceptions.{Exn}
use mini_agent_go.Infra.Table.{Table}

pub record SourceHealthRow : Type 0 where
  pub source_id : Text
  pub fail_streak : ℕ
  pub last_check_at : Option ℕ
  pub last_message : Option Text

pub data HealthColumn : Type 0 where
  by_source : HealthColumn

abbrev pub health_cell : HealthColumn → SourceHealthRow → Text
health_cell by_source r = r.source_id

module _ (table : Table SourceHealthRow HealthColumn health_cell) where
  open table use {
    Store, find, rows, insert as add_row, update as flush_update, find-cell, find-update,
    insert-fresh,
  }

  abbrev pub streak_of : Option SourceHealthRow → ℕ
  streak_of none = 0
  streak_of (some r) = r.fail_streak

  unfoldable pub get_streak : Text → Store → ℕ
  get_streak source_id st = streak_of (find by_source source_id st)

  added : Store → Outcome Exn Store → Outcome Exn ℕ × Store
  added st (ok st') = (ok 1, st')
  added st (err e) = (err e, st)

  increment_row : ℕ → Text → Option Text → Store → Option SourceHealthRow → Outcome Exn ℕ × Store
  unfolding added
  increment_row now source_id message st none = added st (
      add_row
        (record {
          source_id = source_id;
          fail_streak = 1;
          last_check_at = some now;
          last_message = message;
        })
        st)
  increment_row now source_id message st (some r) = (
    ok (r.fail_streak + 1),
    flush_update r
        (record r {
          fail_streak = r.fail_streak + 1;
          last_check_at = some now;
          last_message = message;
        })
        st,
  )

  unfoldable pub increment : ℕ → Text → Option Text → Store → Outcome Exn ℕ × Store
  unfolding increment_row
  increment now source_id message st =
      increment_row now source_id message st (find by_source source_id st)

  reset_row : ℕ → Store → Option SourceHealthRow → Store
  reset_row now st none = st
  reset_row now st (some r) =
      flush_update r
        (record r { fail_streak = 0; last_check_at = some now; last_message = some (codes "ok") })
        st

  unfoldable pub reset : ℕ → Text → Store → Store
  unfolding reset_row
  reset now source_id st = reset_row now st (find by_source source_id st)

  streaks : List SourceHealthRow → Dict ℕ → Dict ℕ
  streaks [] d = d
  streaks (r ∷ rs) d = streaks rs (insert r.source_id r.fail_streak d)

  unfoldable pub list_streaks : Store → Dict ℕ
  unfolding streaks
  list_streaks st = streaks (rows st) []

  module _ (now : ℕ) (id k : Text) (st : Store) where
    streak_of-if :
        (b : Bool) (r : SourceHealthRow) (o : Option SourceHealthRow)
        → streak_of (if b then some r else o) ≡ (if b then r.fail_streak else streak_of o)
    streak_of-if true r o = refl
    streak_of-if false r o = refl

    streak_of-flush :
        (r r' : SourceHealthRow)
        → find by_source id st ≡ some r
        → r'.source_id ≡ r.source_id
        → streak_of (find by_source k (flush_update r r' st))
          ≡ (if id == k then r'.fail_streak else streak_of (find by_source k st))
    streak_of-flush r r' e kept =
        let same : r.source_id ≡ id = find-cell by_source id st r e in
        ap streak_of
          (find-update by_source k r r' st (ap (λ (i : Text). find by_source i st) same ∙ e) kept)
        ∙ streak_of-if (r.source_id == k) r' (find by_source k st)
        ∙ ap (λ (i : Text). if i == k then r'.fail_streak else streak_of (find by_source k st)) same

    -- One more failure adds one to the streak of its source, and returns it; it never fails.
    pub get_streak-increment :
        (message : Option Text)
        → let (r, st') = increment now id message st in
          (r ≡ ok (get_streak id st + 1))
          × (get_streak k st' ≡ (if id == k then get_streak id st + 1 else get_streak k st))
    unfolding get_streak increment
    get_streak-increment message = go (find by_source id st) refl
      where
        go :
            (o : Option SourceHealthRow)
            → find by_source id st ≡ o
            → let (r, st') = increment_row now id message st o in
              (r ≡ ok (streak_of o + 1))
              × (streak_of (find by_source k st')
                  ≡ (if id == k then streak_of o + 1 else streak_of (find by_source k st)))
        go none e =
            let r : SourceHealthRow = record {
              source_id = id;
              fail_streak = 1;
              last_check_at = some now;
              last_message = message;
            } in
            let (st', put, grown, found) =
              insert-fresh r st
                (λ c. elim c as (λ d. find d (health_cell d r) st ≡ none) [ by_source ↦ e ]) in
            rw put (
              refl,
              ap streak_of (found by_source k) ∙ streak_of-if (id == k) r (find by_source k st),
            )
        go (some r) e = (
          refl,
          streak_of-flush r
              (record r {
                fail_streak = r.fail_streak + 1;
                last_check_at = some now;
                last_message = message;
              })
              e refl,
        )

    -- A success sets the streak of its source to 0.
    pub get_streak-reset : get_streak k (reset now id st) ≡ (if id == k then 0 else get_streak k st)
    unfolding get_streak reset
    get_streak-reset = go (find by_source id st) refl
      where
        go :
            (o : Option SourceHealthRow)
            → find by_source id st ≡ o
            → streak_of (find by_source k (reset_row now st o))
              ≡ (if id == k then 0 else streak_of (find by_source k st))
        go none e = elim (Bool-cases (id == k)) [
          | inl q ↦ rw (q, sym ((eq_iff id k).0 q)) (ap streak_of e)
          | inr q ↦ rw q refl
        ]
        go (some r) e =
            streak_of-flush r
              (record r {
                fail_streak = 0;
                last_check_at = some now;
                last_message = some (codes "ok");
              })
              e refl
