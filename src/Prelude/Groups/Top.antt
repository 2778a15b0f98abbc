-- ===== src/Prelude/Groups/Top.antt =====
-- The largest groups of a tally, as many as are asked for.
use mini_agent_go.Prelude.{
  ℕ, zero, suc, ◌≤◌, ◌<◌, ◌≡◌, refl, sym, ap, ◌∙◌, ◌↔◌, ◌⊎◌, inl, inr, Bool, true, false, List, [],
  ◌∷◌, arith, Bool-cases, length, take, All, length-take, count, All-take, All-implied,
}
use mini_agent_go.Prelude.Groups.{
  Group, tally, size_of, named, IsDistinct, put_group, largest_first, count-largest_first,
  largest_first-IsDescending, take-IsDescending, IsDescending,
}
use mini_agent_go.Prelude.Groups.Tally.{size_of-tally, tally-IsDistinct, sized}

-- `best` are the `n` keys that came most often among `ks`.
pub record IsTop {K : Type 0} (eq : K → K → Bool) (n : ℕ) (ks : List K) (best : List (Group K))
    : Type 0 where
  pub few : length best ≤ n
  pub ordered : IsDescending best
  pub exact : All (λ g. g.size ≡ count (λ j. eq j g.key) ks) best
  pub distinct : IsDistinct eq best
  -- a key that is left out came at most as often as each that is there, and only if they are `n`
  pub left_out :
      (k : K)
      → (0 < count (named eq k) best)
        ⊎ (All (λ g. count (λ j. eq j k) ks ≤ g.size) best
            × ((length best ≡ n) ⊎ (count (λ j. eq j k) ks ≡ 0)))

module _ {K : Type 0} (eq : K → K → Bool) (eq-iff : (a b : K) → (eq a b ≡ true) ↔ (a ≡ b)) where
  count-take-le :
      (p : Group K → Bool) (n : ℕ) (gs : List (Group K)) → count p (take n gs) ≤ count p gs
  count-take-le p zero gs = omega arith
  count-take-le p (suc n) [] = omega arith
  count-take-le p (suc n) (g ∷ gs) = omega (arith, count-take-le p n gs)

  size_of-eq-zero : (k : K) (gs : List (Group K)) → count (named eq k) gs ≡ 0 → size_of eq k gs ≡ 0
  unfolding size_of
  size_of-eq-zero k [] h = refl
  size_of-eq-zero k (g ∷ gs) h = ground (arith, size_of-eq-zero k gs)

  size_of-le :
      (k : K) (m : ℕ) (gs : List (Group K))
      → count (named eq k) gs ≤ 1
      → All (λ g. g.size ≤ m) gs
      → size_of eq k gs ≤ m
  unfolding size_of
  size_of-le k m [] d h = omega arith
  size_of-le k m (g ∷ gs) d h = ground (arith, size_of-eq-zero k gs, size_of-le k m gs)

  size_of-other :
      (k : K) (g : Group K) (gs : List (Group K))
      → eq g.key k ≡ false
      → size_of eq k (g ∷ gs) ≡ size_of eq k gs
  unfolding size_of
  size_of-other k g gs e = ground arith

  -- what `take` leaves out of a list that descends
  passed_over :
      (k : K) (n : ℕ) (gs : List (Group K))
      → count (named eq k) gs ≤ 1
      → IsDescending gs
      → (0 < count (named eq k) (take n gs))
        ⊎ (All (λ g. size_of eq k gs ≤ g.size) (take n gs)
            × ((length (take n gs) ≡ n) ⊎ (size_of eq k gs ≡ 0)))
  passed_over k zero gs d h = inr (tt, inl refl)
  passed_over k (suc n) [] d h = inr (tt, inr (unfold size_of in refl))
  passed_over k (suc n) (g ∷ gs) d h = elim (Bool-cases (eq g.key k)) [
    | inl e ↦ inl (rw e (omega arith))
    | inr e ↦
        let d' : count (named eq k) gs ≤ 1 = ground arith in
        let le : size_of eq k gs ≤ g.size = size_of-le k g.size gs d' h.0 in
        let same = size_of-other k g gs e in
        elim (passed_over k n gs d' h.1) [
          | inl p ↦ inl (omega arith)
          | inr q ↦ inr (
            (rw same le, All-implied (λ x le'. rw same le') (take n gs) q.0),
            elim q.1 [ inl l ↦ inl (ap suc l) | inr z ↦ inr (same ∙ z) ],
          )
        ]
  ]

  size_of-put_group :
      (k : K) (g : Group K) (gs : List (Group K))
      → size_of eq k (put_group g gs) ≡ size_of eq k (g ∷ gs)
  unfolding size_of put_group
  size_of-put_group k g [] = refl
  size_of-put_group k g (h ∷ hs) = ground (arith, size_of-put_group k g hs)

  size_of-largest_first :
      (k : K) (gs : List (Group K)) → size_of eq k (largest_first gs) ≡ size_of eq k gs
  unfolding size_of largest_first
  size_of-largest_first k [] = refl
  size_of-largest_first k (g ∷ gs) =
      size_of-put_group k g (largest_first gs)
      ∙ unfold size_of in omega (arith, size_of-largest_first k gs)

  pub take-IsTop : (n : ℕ) (ks : List K) → IsTop eq n ks (take n (largest_first (tally eq ks)))
  take-IsTop n ks =
      let gs = tally eq ks in
      let sorted = largest_first gs in
      let once : IsDistinct eq sorted =
        λ k. omega (arith, count-largest_first (named eq k) gs, tally-IsDistinct eq eq-iff ks k) in
      let counted : (k : K) → size_of eq k sorted ≡ count (λ j. eq j k) ks =
        λ k. size_of-largest_first k gs ∙ size_of-tally eq eq-iff k ks in
      record {
        few = length-take n sorted;
        ordered = take-IsDescending n sorted (largest_first-IsDescending gs);
        exact =
            All-take (λ g. g.size ≡ count (λ j. eq j g.key) ks) n sorted
              (All-implied (λ g e. sym e ∙ counted g.key) sorted (sized eq eq-iff sorted once));
        distinct = λ k. omega (arith, count-take-le (named eq k) n sorted, once k);
        left_out =
            λ k. rw (← counted k) (passed_over k n sorted (once k) (largest_first-IsDescending gs));
      }
