-- ===== src/Infra/Jobs/Listing.antt =====
-- What the job repository lists.
use mini_agent_go.Prelude.{
  ℕ, zero, suc, ◌≤◌, ◌≡◌, refl, sym, ap, ◌∙◌, ◌⊎◌, inl, inr, Bool, true, ◌&&◌, Option, none, some,
  List, [], ◌∷◌, ◌++◌, map, arith, leb, Bool-cases, length, take, filter, All, length-take, Text,
  codes, count, All-implied, count-filter, ◌==◌, eq_iff, Outcome, ok, >>=-eq-ok,
}
use mini_agent_go.Core.Exceptions.{Exn}
use mini_agent_go.Domain.Models.{CrawlJob, JobStatus, job_value, to_job_status, pending}
use mini_agent_go.Infra.Table.{Table}
use mini_agent_go.Infra.Jobs.{
  JobRow, JobColumn, job_cell, new_row, to_domain, to_domains, put_row, latest_first, is_asked,
  list, made,
}

-- newest first
abbrev pub IsDescending : List JobRow → Type 0
IsDescending [] = Unit
IsDescending (r ∷ rs) = All (λ q. q.started_at ≤ r.started_at) rs × IsDescending rs

module _ (P : JobRow → Type 0) where
  All-put_row : (r : JobRow) (rs : List JobRow) → P r → All P rs → All P (put_row r rs)
  unfolding put_row
  All-put_row r [] p h = (p, tt)
  All-put_row r (q ∷ qs) p h = elim (Bool-cases (leb q.started_at r.started_at)) [
    | inl e ↦ rw e (p, h)
    | inr e ↦ rw e (h.0, All-put_row r qs p h.1)
  ]

put_row-IsDescending :
    (r : JobRow) (rs : List JobRow) → IsDescending rs → IsDescending (put_row r rs)
unfolding put_row
put_row-IsDescending r [] h = (tt, tt)
put_row-IsDescending r (q ∷ qs) h = elim (Bool-cases (leb q.started_at r.started_at)) [
  | inl e ↦
      let le : q.started_at ≤ r.started_at = ground arith in
      rw e ((le, All-implied (λ x k. omega (arith, k, le)) qs h.0), h)
  | inr e ↦
      let le : r.started_at ≤ q.started_at = ground arith in
      rw e
        (All-put_row (λ x. x.started_at ≤ q.started_at) r qs le h.0, put_row-IsDescending r qs h.1)
]

latest_first-IsDescending : (rs : List JobRow) → IsDescending (latest_first rs)
unfolding latest_first
latest_first-IsDescending [] = tt
latest_first-IsDescending (r ∷ rs) =
    put_row-IsDescending r (latest_first rs) (latest_first-IsDescending rs)

to_job_status-some : (v : Text) (st : JobStatus) → to_job_status v ≡ some st → v ≡ job_value st
unfolding to_job_status job_value
to_job_status-some v pending h = ground (
  arith,
  eq_iff v (codes "pending"),
  eq_iff v (codes "running"),
  eq_iff v (codes "success"),
  eq_iff v (codes "failed"),
  eq_iff v (codes "partial_failure"),
  eq_iff v (codes "retry"),
)
to_job_status-some v st h = ground (
  arith,
  eq_iff v (codes "pending"),
  eq_iff v (codes "running"),
  eq_iff v (codes "success"),
  eq_iff v (codes "failed"),
  eq_iff v (codes "partial_failure"),
  eq_iff v (codes "retry"),
)

ok_injective : {a b : CrawlJob} → ◌≡◌ {A = Outcome Exn CrawlJob} (ok a) (ok b) → a ≡ b
ok_injective h = cc

jobs_injective : {a b : List CrawlJob} → ◌≡◌ {A = Outcome Exn (List CrawlJob)} (ok a) (ok b) → a ≡ b
jobs_injective h = cc

-- A job that was read is the one of its row.
new_row-to_domain : (r : JobRow) (j : CrawlJob) → to_domain r ≡ ok j → new_row j ≡ r
unfolding to_domain new_row
new_row-to_domain r j h = go (to_job_status r.status) refl h
  where
    go : (o : Option JobStatus) → to_job_status r.status ≡ o → made r o ≡ ok j → new_row j ≡ r
    go none e k = unfold made in cc
    go (some st) e k =
        unfold made in
        ap new_row (sym (ok_injective k))
        ∙ ap (λ (v : Text). record r { status = v }) (sym (to_job_status-some r.status st e))

map-new_row-to_domains :
    (rs : List JobRow) (js : List CrawlJob) → to_domains rs ≡ ok js → map new_row js ≡ rs
unfolding to_domains
map-new_row-to_domains [] js h = ap (map new_row) (sym (jobs_injective h))
map-new_row-to_domains (r ∷ rs) js h =
    let (j, e, h1) = >>=-eq-ok (to_domain r) _ h in
    let (ks, e2, h2) = >>=-eq-ok (to_domains rs) _ h1 in
    let same : js ≡ j ∷ ks = sym (jobs_injective h2) in
    rw same (
      ap (λ (q : JobRow). q ∷ map new_row ks) (new_row-to_domain r j e)
      ∙ ap (λ (qs : List JobRow). r ∷ qs) (map-new_row-to_domains rs ks e2))

-- the rows after the first `n`
behind : ℕ → List JobRow → List JobRow
behind zero rs = rs
behind (suc n) [] = []
behind (suc n) (r ∷ rs) = behind n rs

take-behind : (n : ℕ) (rs : List JobRow) → take n rs ++ behind n rs ≡ rs
unfolding behind
take-behind zero rs = refl
take-behind (suc n) [] = refl
take-behind (suc n) (r ∷ rs) = ap (λ (qs : List JobRow). r ∷ qs) (take-behind n rs)

take-all : (n : ℕ) (rs : List JobRow) → (behind n rs ≡ []) ⊎ (length (take n rs) ≡ n)
unfolding behind
take-all zero rs = inr refl
take-all (suc n) [] = inl refl
take-all (suc n) (r ∷ rs) = elim (take-all n rs) [ inl h ↦ inl h | inr h ↦ inr (ap suc h) ]

-- whether a job is of the source that was asked for; none, or an empty one, asks for all
abbrev pub is_of : Option Text → JobRow → Bool
is_of none r = true
is_of (some []) r = true
is_of (some (c ∷ v)) r = r.source_id == c ∷ v

-- whether a job has the status that was asked for, if any was
abbrev pub is_in : Option JobStatus → JobRow → Bool
is_in none r = true
is_in (some st) r = r.status == job_value st

is_asked-is_of :
    (source_id : Option Text) (status : Option JobStatus) (r : JobRow)
    → is_asked source_id status r ≡ (is_of source_id r && is_in status r)
unfolding is_asked
is_asked-is_of none none r = refl
is_asked-is_of none (some st) r = refl
is_asked-is_of (some []) none r = refl
is_asked-is_of (some []) (some st) r = refl
is_asked-is_of (some (c ∷ v)) none r = ground arith
is_asked-is_of (some (c ∷ v)) (some st) r = ground arith

count-is_asked :
    (source_id : Option Text) (status : Option JobStatus) (p : JobRow → Bool) (rs : List JobRow)
    → count (λ r. is_asked source_id status r && p r) rs
      ≡ count (λ r. is_of source_id r && is_in status r && p r) rs
count-is_asked source_id status p [] = refl
count-is_asked source_id status p (r ∷ rs) =
    rw (is_asked-is_of source_id status r, count-is_asked source_id status p rs) (ground arith)

count-put_row :
    (p : JobRow → Bool) (r : JobRow) (rs : List JobRow) → count p (put_row r rs) ≡ count p (r ∷ rs)
unfolding put_row
count-put_row p r [] = refl
count-put_row p r (q ∷ qs) = elim (Bool-cases (leb q.started_at r.started_at)) [
  | inl e ↦ rw e refl
  | inr e ↦ rw e (omega (arith, count-put_row p r qs))
]

count-latest_first : (p : JobRow → Bool) (rs : List JobRow) → count p (latest_first rs) ≡ count p rs
unfolding latest_first
count-latest_first p [] = refl
count-latest_first p (r ∷ rs) =
    omega (arith, count-put_row p r (latest_first rs), count-latest_first p rs)

-- What a listing has of `rows`: with those it leaves out behind it, all jobs of the source and the
-- status that were asked for, each as often as it is stored, the newest first; and nothing is left
-- out before the limit.
pub record AreListed (source_id : Option Text) (status : Option JobStatus) (limit : ℕ)
    (rows listed : List JobRow) : Type 0 where
  pub older : List JobRow
  pub ordered : IsDescending (listed ++ older)
  pub complete :
      (p : JobRow → Bool)
      → count p (listed ++ older) ≡ count (λ r. is_of source_id r && is_in status r && p r) rows
  pub few : length listed ≤ limit
  pub full : (older ≡ []) ⊎ (length listed ≡ limit)

-- The jobs that are listed are those of the source and the status that were asked for, each as often
-- as it is stored, the newest first, up to the limit; those left out beyond it are no newer than any
-- that is listed.
pub list-IsDescending :
    (table : Table JobRow JobColumn job_cell) (source_id : Option Text) (status : Option JobStatus)
    (limit : ℕ) (st : table.Store) (js : List CrawlJob)
    → list table source_id status limit st ≡ ok js
    → AreListed source_id status limit (table.rows st) (map new_row js)
unfolding list
list-IsDescending table source_id status limit st js h =
    let kept = filter (is_asked source_id status) (table.rows st) in
    let rows = take limit (latest_first kept) in
    let same : map new_row js ≡ rows = map-new_row-to_domains rows js h in
    let all_of = take-behind limit (latest_first kept) in
    rw same (record {
      older = behind limit (latest_first kept);
      ordered = rw all_of (latest_first-IsDescending kept);
      complete = λ p.
          ap (count p) all_of
          ∙ count-latest_first p kept
          ∙ count-filter p (is_asked source_id status) (table.rows st)
          ∙ count-is_asked source_id status p (table.rows st);
      few = length-take limit (latest_first kept);
      full = take-all limit (latest_first kept);
    })
