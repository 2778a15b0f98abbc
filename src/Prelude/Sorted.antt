-- ===== src/Prelude/Sorted.antt =====
-- `sorted(set)` on texts: ascending in the order of code points, without repetition.
use mathlib.Core.Path.{◌≡◌, refl}
use mathlib.Core.Bool.{Bool, true, false, ◌&&◌, ◌||◌}
use mathlib.Core.List.{List, [], ◌∷◌, ◌++◌}
use native.Mathlib.Omega.{arith}
use mini_agent_go.Prelude.Tests.{ltb, eqb, if◌then◌else◌}
use mini_agent_go.Prelude.Texts.{Text, ◌==◌, eq_iff}

-- Python's `<` on `str`.
unfoldable pub lt_text : Text → Text → Bool
lt_text s [] = false
lt_text [] (d ∷ t) = true
lt_text (c ∷ s) (d ∷ t) = ltb c d || (eqb c d && lt_text s t)

pub lt_text_irrefl : (s : Text) → lt_text s s ≡ false
unfolding lt_text
lt_text_irrefl [] = refl
lt_text_irrefl (c ∷ s) = ground (arith, lt_text_irrefl s)

pub lt_text_trans : (s t u : Text) → lt_text s t ≡ true → lt_text t u ≡ true → lt_text s u ≡ true
unfolding lt_text
lt_text_trans s [] u h k = cc
lt_text_trans s (d ∷ t) [] h k = cc
lt_text_trans [] (d ∷ t) (e ∷ u) h k = refl
lt_text_trans (c ∷ s) (d ∷ t) (e ∷ u) h k = ground (arith, lt_text_trans s t u)

pub lt_text_total : (s t : Text) → lt_text s t ≡ false → (s == t) ≡ false → lt_text t s ≡ true
unfolding lt_text ◌==◌
lt_text_total [] [] h k = cc
lt_text_total [] (d ∷ t) h k = cc
lt_text_total (c ∷ s) [] h k = refl
lt_text_total (c ∷ s) (d ∷ t) h k = ground (arith, lt_text_total s t)

-- A set's `add`, on the sorted list of its members.
unfoldable pub add : Text → List Text → List Text
add x [] = x ∷ []
add x (y ∷ ys) =
    let rest = add x ys in if x == y then y ∷ ys else if lt_text x y then x ∷ y ∷ ys else y ∷ rest

-- `sorted({*xs})`
unfoldable pub sorted_set : List Text → List Text
unfolding add
sorted_set [] = []
sorted_set (x ∷ xs) = add x (sorted_set xs)

unfoldable pub mem : Text → List Text → Bool
mem x [] = false
mem x (y ∷ ys) = (y == x) || mem x ys

-- Every member is above `x`.
abbrev pub Above : Text → List Text → Type 0
Above x [] = Unit
Above x (y ∷ ys) = (lt_text x y ≡ true) × Above x ys

abbrev pub IsAscending : List Text → Type 0
IsAscending [] = Unit
IsAscending (x ∷ xs) = Above x xs × IsAscending xs

pub mem-add : (x y : Text) (ys : List Text) → mem y (add x ys) ≡ ((x == y) || mem y ys)
unfolding mem add
mem-add x y [] = refl
mem-add x y (z ∷ zs) = ground (arith, mem-add x y zs, eq_iff x z, eq_iff x y, eq_iff z y)

pub mem-append : (x : Text) (xs ys : List Text) → mem x (xs ++ ys) ≡ (mem x xs || mem x ys)
unfolding mem
mem-append x [] ys = refl
mem-append x (z ∷ zs) ys = ground (arith, mem-append x zs ys)

-- The sorted set has the members of the list.
pub mem-sorted_set : (x : Text) (xs : List Text) → mem x (sorted_set xs) ≡ mem x xs
unfolding mem sorted_set
mem-sorted_set x [] = refl
mem-sorted_set x (y ∷ ys) = ground (arith, mem-add y x (sorted_set ys), mem-sorted_set x ys)

Above-trans : (x y : Text) (ys : List Text) → lt_text x y ≡ true → Above y ys → Above x ys
Above-trans x y [] h a = tt
Above-trans x y (z ∷ zs) h a = (lt_text_trans x y z h a.0, Above-trans x y zs h a.1)

Above-add : (x y : Text) (ys : List Text) → lt_text x y ≡ true → Above x ys → Above x (add y ys)
unfolding add
Above-add x y [] h a = (h, tt)
Above-add x y (z ∷ zs) h a = ground (arith, Above-add x y zs h a.1)

pub add-IsAscending : (x : Text) (xs : List Text) → IsAscending xs → IsAscending (add x xs)
unfolding add
add-IsAscending x [] h = (tt, tt)
add-IsAscending x (y ∷ ys) h =
    ground
      (arith, add-IsAscending x ys h.1, Above-trans x y ys, lt_text_total x y, Above-add y x ys)

pub sorted_set-IsAscending : (xs : List Text) → IsAscending (sorted_set xs)
unfolding sorted_set
sorted_set-IsAscending [] = tt
sorted_set-IsAscending (x ∷ xs) = add-IsAscending x (sorted_set xs) (sorted_set-IsAscending xs)

pub not-mem-Above : (x : Text) (ys : List Text) → Above x ys → mem x ys ≡ false
unfolding mem
not-mem-Above x [] a = refl
not-mem-Above x (y ∷ ys) a = ground (arith, not-mem-Above x ys a.1, eq_iff y x, lt_text_irrefl x)
