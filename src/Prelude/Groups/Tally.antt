-- ===== src/Prelude/Groups/Tally.antt =====
-- What a tally counts: each key as often as it came, once, and in all as many as came.
use mini_agent_go.Prelude.{
  ◌+◌, ◌≡◌, refl, ◌↔◌, inl, inr, Bool, true, false, List, [], ◌∷◌, arith, ltb, if◌then◌else◌,
  Bool-cases, length, All, count, All-not_counted, All-both,
}
use mini_agent_go.Prelude.Groups.{Group, bump, tally_onto, tally, size_of, named, IsDistinct, total}

module _ {K : Type 0} (eq : K → K → Bool) (eq-iff : (a b : K) → (eq a b ≡ true) ↔ (a ≡ b)) where
  size_of-bump :
      (j k : K) (gs : List (Group K))
      → size_of eq j (bump eq k gs) ≡ (if eq k j then 1 else 0) + size_of eq j gs
  unfolding size_of bump
  size_of-bump j k [] = ground arith
  size_of-bump j k (g ∷ gs) = elim (Bool-cases (eq g.key k)) [
    | inl e ↦ let same : g.key ≡ k = (eq-iff g.key k).0 e in rw (e, same) (ground arith)
    | inr e ↦ rw e (omega (arith, size_of-bump j k gs))
  ]

  size_of-tally_onto :
      (k : K) (gs : List (Group K)) (ks : List K)
      → size_of eq k (tally_onto eq gs ks) ≡ size_of eq k gs + count (λ j. eq j k) ks
  unfolding tally_onto
  size_of-tally_onto k gs [] = omega arith
  size_of-tally_onto k gs (j ∷ ks) =
      omega (arith, size_of-tally_onto k (bump eq j gs) ks, size_of-bump k j gs)

  -- A tally counts each key as often as it came.
  pub size_of-tally : (k : K) (ks : List K) → size_of eq k (tally eq ks) ≡ count (λ j. eq j k) ks
  unfolding tally size_of
  size_of-tally k ks = omega (arith, size_of-tally_onto k [] ks)

  total-bump : (k : K) (gs : List (Group K)) → total (bump eq k gs) ≡ total gs + 1
  unfolding bump
  total-bump k [] = omega arith
  total-bump k (g ∷ gs) = ground (arith, total-bump k gs)

  total-tally_onto :
      (gs : List (Group K)) (ks : List K) → total (tally_onto eq gs ks) ≡ total gs + length ks
  unfolding tally_onto
  total-tally_onto gs [] = omega arith
  total-tally_onto gs (k ∷ ks) = omega (arith, total-tally_onto (bump eq k gs) ks, total-bump k gs)

  -- The sizes add up to the number of all that came.
  pub total-tally : (ks : List K) → total (tally eq ks) ≡ length ks
  unfolding tally
  total-tally ks = omega (arith, total-tally_onto [] ks)

  count-bump :
      (j k : K) (gs : List (Group K))
      → count (named eq j) (bump eq k gs)
        ≡ (if eq k j then (if ltb 0 (count (named eq k) gs) then 0 else 1) else 0)
          + count (named eq j) gs
  unfolding bump
  count-bump j k [] = ground arith
  count-bump j k (g ∷ gs) = elim (Bool-cases (eq g.key k)) [
    | inl e ↦ rw e (ground arith)
    | inr e ↦ rw e (ground (arith, count-bump j k gs))
  ]

  bump-IsDistinct : (k : K) (gs : List (Group K)) → IsDistinct eq gs → IsDistinct eq (bump eq k gs)
  bump-IsDistinct k gs h j = elim (Bool-cases (eq k j)) [
    | inl e ↦
        let same : k ≡ j = (eq-iff k j).0 e in rw (← same) (ground (arith, count-bump k k gs, h k))
    | inr e ↦ ground (arith, count-bump j k gs, h j)
  ]

  tally_onto-IsDistinct :
      (gs : List (Group K)) (ks : List K) → IsDistinct eq gs → IsDistinct eq (tally_onto eq gs ks)
  unfolding tally_onto
  tally_onto-IsDistinct gs [] h = h
  tally_onto-IsDistinct gs (k ∷ ks) h =
      tally_onto-IsDistinct (bump eq k gs) ks (bump-IsDistinct k gs h)

  pub tally-IsDistinct : (ks : List K) → IsDistinct eq (tally eq ks)
  unfolding tally
  tally-IsDistinct ks = tally_onto-IsDistinct [] ks (λ k. omega arith)

  none-size : (k : K) (gs : List (Group K)) → count (named eq k) gs ≡ 0 → size_of eq k gs ≡ 0
  unfolding size_of
  none-size k [] h = refl
  none-size k (g ∷ gs) h = ground (arith, none-size k gs)

  eq-swap : (a b : K) → eq a b ≡ false → eq b a ≡ false
  eq-swap a b h = ground (arith, eq-iff a b, eq-iff b a)

  -- In a list without two groups of one key, each group has the size of its key.
  pub sized : (gs : List (Group K)) → IsDistinct eq gs → All (λ g. size_of eq g.key gs ≡ g.size) gs
  unfolding size_of
  sized [] h = tt
  sized (g ∷ gs) h =
      let self : eq g.key g.key ≡ true = (eq-iff g.key g.key).1 refl in
      let alone : count (named eq g.key) gs ≡ 0 = ground (arith, h g.key) in
      let others = All-not_counted (named eq g.key) gs alone in
      let tail = sized gs (λ k. ground (arith, h k)) in
      (
        ground (arith, none-size g.key gs),
        All-both (λ q e k. ground (arith, eq-swap q.key g.key)) gs others tail,
      )
