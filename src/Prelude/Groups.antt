-- ===== src/Prelude/Groups.antt =====
-- `GROUP BY` with a count, `ORDER BY` the count from the largest, and Python's `Counter`. Groups
-- keep the order in which their keys first come, which SQL leaves open.
pub mod Tally
pub mod Top
use mini_agent_go.Prelude.{
  ℕ, zero, suc, ◌+◌, ◌≤◌, ◌≡◌, refl, inl, inr, Bool, List, [], ◌∷◌, arith, leb, if◌then◌else◌,
  Bool-cases, take, All, count, All-take, All-implied,
}

pub record Group (K : Type 0) : Type 0 where
  pub key : K
  pub size : ℕ

module _ {K : Type 0} (eq : K → K → Bool) where
  -- `counter[k] += 1`
  unfoldable pub bump : K → List (Group K) → List (Group K)
  bump k [] = record { key = k; size = 1 } ∷ []
  bump k (g ∷ gs) =
      let rest = bump k gs in if eq g.key k then record g { size = g.size + 1 } ∷ gs else g ∷ rest

  unfoldable pub tally_onto : List (Group K) → List K → List (Group K)
  unfolding bump
  tally_onto gs [] = gs
  tally_onto gs (k ∷ ks) = tally_onto (bump k gs) ks

  unfoldable pub tally : List K → List (Group K)
  unfolding tally_onto
  tally ks = tally_onto [] ks

  -- `counter[k]`, which is 0 for a key that did not come
  unfoldable pub size_of : K → List (Group K) → ℕ
  size_of k [] = 0
  size_of k (g ∷ gs) = (if eq g.key k then g.size else 0) + size_of k gs

  abbrev pub named : K → Group K → Bool
  named k g = eq g.key k

  -- No two groups have the same key.
  abbrev pub IsDistinct : List (Group K) → Type 0
  IsDistinct gs = (k : K) → count (named k) gs ≤ 1

module _ {K : Type 0} where
  abbrev pub total : List (Group K) → ℕ
  total [] = 0
  total (g ∷ gs) = g.size + total gs

  unfoldable pub put_group : Group K → List (Group K) → List (Group K)
  put_group g [] = g ∷ []
  put_group g (h ∷ hs) =
      let rest = put_group g hs in if leb h.size g.size then g ∷ h ∷ hs else h ∷ rest

  unfoldable pub largest_first : List (Group K) → List (Group K)
  unfolding put_group
  largest_first [] = []
  largest_first (g ∷ gs) = put_group g (largest_first gs)

  abbrev pub IsDescending : List (Group K) → Type 0
  IsDescending [] = Unit
  IsDescending (g ∷ gs) = All (λ h. h.size ≤ g.size) gs × IsDescending gs

  count-put_group :
      (p : Group K → Bool) (g : Group K) (gs : List (Group K))
      → count p (put_group g gs) ≡ count p (g ∷ gs)
  unfolding put_group
  count-put_group p g [] = refl
  count-put_group p g (h ∷ hs) = ground (arith, count-put_group p g hs)

  pub count-largest_first :
      (p : Group K → Bool) (gs : List (Group K)) → count p (largest_first gs) ≡ count p gs
  unfolding largest_first
  count-largest_first p [] = refl
  count-largest_first p (g ∷ gs) =
      omega (arith, count-put_group p g (largest_first gs), count-largest_first p gs)

  All-put_group :
      (P : Group K → Type 0) (g : Group K) (gs : List (Group K))
      → P g
      → All P gs
      → All P (put_group g gs)
  unfolding put_group
  All-put_group P g [] p h = (p, tt)
  All-put_group P g (q ∷ qs) p h = elim (Bool-cases (leb q.size g.size)) [
    | inl e ↦ rw e (p, h)
    | inr e ↦ rw e (h.0, All-put_group P g qs p h.1)
  ]

  pub All-largest_first :
      (P : Group K → Type 0) (gs : List (Group K)) → All P gs → All P (largest_first gs)
  unfolding largest_first
  All-largest_first P [] h = tt
  All-largest_first P (g ∷ gs) h =
      All-put_group P g (largest_first gs) h.0 (All-largest_first P gs h.1)

  put_group-IsDescending :
      (g : Group K) (gs : List (Group K)) → IsDescending gs → IsDescending (put_group g gs)
  unfolding put_group
  put_group-IsDescending g [] h = (tt, tt)
  put_group-IsDescending g (q ∷ qs) h = elim (Bool-cases (leb q.size g.size)) [
    | inl e ↦
        let le : q.size ≤ g.size = ground arith in
        rw e ((le, All-implied (λ x k. omega (arith, k, le)) qs h.0), h)
    | inr e ↦
        let le : g.size ≤ q.size = ground arith in
        rw e (All-put_group (λ x. x.size ≤ q.size) g qs le h.0, put_group-IsDescending g qs h.1)
  ]

  pub largest_first-IsDescending : (gs : List (Group K)) → IsDescending (largest_first gs)
  unfolding largest_first
  largest_first-IsDescending [] = tt
  largest_first-IsDescending (g ∷ gs) =
      put_group-IsDescending g (largest_first gs) (largest_first-IsDescending gs)

  pub take-IsDescending : (n : ℕ) (gs : List (Group K)) → IsDescending gs → IsDescending (take n gs)
  take-IsDescending zero gs h = tt
  take-IsDescending (suc n) [] h = tt
  take-IsDescending (suc n) (g ∷ gs) h =
      (All-take (λ x. x.size ≤ g.size) n gs h.0, take-IsDescending n gs h.1)
