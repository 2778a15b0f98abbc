-- ===== src/Prelude/Dict.antt =====
-- Python's `dict` with text keys, in insertion order: a new key goes to the end, a write to an old
-- key keeps its place.
use mathlib.Core.Path.{◌≡◌, refl}
use mathlib.Core.Logic.{inl, inr}
use mathlib.Core.Bool.{Bool, true, false}
use mathlib.Core.Option.{Option, none, some}
use mathlib.Core.List.{List, [], ◌∷◌, ◌++◌, map, append-nil}
use native.Mathlib.Omega.{arith}
use mini_agent_go.Prelude.Tests.{if◌then◌else◌, Bool-cases, get_or}
use mini_agent_go.Prelude.Texts.{Text, ◌==◌, eq_iff, eq_refl}

abbrev pub Dict {ℓ} : Type ℓ → Type ℓ
Dict V = List (Text × V)

module _ {ℓ} {V : Type ℓ} where
  -- `d.get(k)`
  unfoldable pub lookup : Text → Dict V → Option V
  lookup k [] = none
  lookup k ((j, v) ∷ d) = let rest = lookup k d in if j == k then some v else rest

  -- `d[k] = v`
  unfoldable pub insert : Text → V → Dict V → Dict V
  insert k v [] = (k, v) ∷ []
  insert k v ((j, w) ∷ d) = let rest = insert k v d in if j == k then (j, v) ∷ d else (j, w) ∷ rest

  -- `d.pop(k, None)`; every entry of the key goes
  unfoldable pub erase : Text → Dict V → Dict V
  erase k [] = []
  erase k ((j, v) ∷ d) = let rest = erase k d in if j == k then rest else (j, v) ∷ rest

  -- `k in d`
  abbrev pub contains : Text → Dict V → Bool
  contains k d = elim (lookup k d) [ none ↦ false | some v ↦ true ]

  -- `list(d)`
  abbrev pub keys : Dict V → List Text
  keys = map (λ e. e.0)

  -- `list(d.values())`
  abbrev pub values : Dict V → List V
  values = map (λ e. e.1)

  pub lookup-insert :
      (k j : Text) (v : V) (d : Dict V)
      → lookup j (insert k v d) ≡ (if k == j then some v else lookup j d)
  unfolding lookup insert
  lookup-insert k j v [] = refl
  lookup-insert k j v ((i, w) ∷ d) =
      ground (arith, eq_iff k j, eq_iff i k, eq_iff i j, lookup-insert k j v d)

  pub lookup-insert_self : (k : Text) (v : V) (d : Dict V) → lookup k (insert k v d) ≡ some v
  lookup-insert_self k v d = rw (lookup-insert, eq_refl k)

  pub lookup-erase :
      (k j : Text) (d : Dict V) → lookup j (erase k d) ≡ (if k == j then none else lookup j d)
  unfolding lookup erase
  lookup-erase k j [] = ground arith
  lookup-erase k j ((i, w) ∷ d) =
      ground (arith, eq_iff k j, eq_iff i k, eq_iff i j, lookup-erase k j d)

module _ {ℓ} {V : Type ℓ} where
  -- `d.setdefault(k, []).append(v)`
  unfoldable pub push : Text → V → Dict (List V) → Dict (List V)
  push k v d = insert k (get_or (lookup k d) [] ++ v ∷ []) d

  -- `d.get(k, [])`
  abbrev pub pushed : Text → Dict (List V) → List V
  pushed k d = get_or (lookup k d) []

  pub pushed-push :
      (k j : Text) (v : V) (d : Dict (List V))
      → pushed j (push k v d) ≡ pushed j d ++ (if k == j then v ∷ [] else [])
  unfolding push
  pushed-push k j v d = elim (Bool-cases (k == j)) [
    | inl e ↦ let same : k ≡ j = (eq_iff k j).0 e in rw (lookup-insert, e, same) refl
    | inr e ↦ rw (lookup-insert, e, append-nil) refl
  ]

pub ruleset dict_laws = (lookup-insert, lookup-erase, eq_refl)
