-- ===== src/Domain/Dedup/Groups.antt =====
-- The dictionary of groups: its keys are distinct, and each group holds what has its key.
use mathlib.Core.Path.{subst}
use mathlib.Core.List.{append-nil, append_assoc}
use mini_agent_go.Prelude.{
  ◌≡◌, refl, sym, ◌⊎◌, inl, inr, false, ◌||◌, none, some, List, [], ◌∷◌, ◌++◌, map, arith,
  if◌then◌else◌, Bool-cases, get_or, filter, All, All-append, Text, ◌==◌, eq_iff, eq_sym,
}
use mini_agent_go.Prelude.Dict.{Dict, lookup, insert, keys, lookup-insert}
use mini_agent_go.Prelude.Sorted.{mem}
use mini_agent_go.Domain.Models.{TvProgram}
use mini_agent_go.Domain.Dedup.{group_one, group_all}

abbrev pub IsDistinct : List Text → Type 0
IsDistinct [] = Unit
IsDistinct (k ∷ ks) = (mem k ks ≡ false) × IsDistinct ks

abbrev pub identity_keys : List TvProgram → List Text
identity_keys = map (λ p. p.identity_key)

-- The programs with an identity key, in their order.
abbrev pub having : Text → List TvProgram → List TvProgram
having k = filter (λ p. p.identity_key == k)

-- A group is not empty, and its programs have its key.
abbrev pub IsGroup : Text × List TvProgram → Type 0
IsGroup (k, []) = ⊥
IsGroup (k, p ∷ ps) = All (λ q. q.identity_key ≡ k) (p ∷ ps)

abbrev pub IsGrouped : Dict (List TvProgram) → Type 0
IsGrouped g = All IsGroup g

module _ {V : Type 0} where
  pub mem-keys-insert :
      (k j : Text) (v : V) (d : Dict V) → mem j (keys (insert k v d)) ≡ (k == j || mem j (keys d))
  unfolding insert mem
  mem-keys-insert k j v [] = refl
  mem-keys-insert k j v ((i, w) ∷ d) =
      ground (arith, mem-keys-insert k j v d, eq_iff i k, eq_iff i j, eq_iff k j)

  insert-IsDistinct :
      (k : Text) (v : V) (d : Dict V) → IsDistinct (keys d) → IsDistinct (keys (insert k v d))
  unfolding insert
  insert-IsDistinct k v [] h = (unfold mem in refl, tt)
  insert-IsDistinct k v ((i, w) ∷ d) h =
      ground (arith, insert-IsDistinct k v d h.1, mem-keys-insert k i v d, eq_sym i k)

  -- A new key goes to the end.
  pub insert-new :
      (k : Text) (v : V) (d : Dict V) → mem k (keys d) ≡ false → insert k v d ≡ d ++ (k, v) ∷ []
  unfolding insert mem
  insert-new k v [] h = refl
  insert-new k v ((i, w) ∷ d) h = ground (arith, insert-new k v d)

  pub lookup-not_mem : (k : Text) (d : Dict V) → mem k (keys d) ≡ false → lookup k d ≡ none
  unfolding lookup mem
  lookup-not_mem k [] h = refl
  lookup-not_mem k ((i, w) ∷ d) h = ground (arith, lookup-not_mem k d)

pub group_all-IsDistinct :
    (g : Dict (List TvProgram)) (ps : List TvProgram)
    → IsDistinct (keys g)
    → IsDistinct (keys (group_all g ps))
unfolding group_all
group_all-IsDistinct g [] h = h
group_all-IsDistinct g (p ∷ ps) h =
    group_all-IsDistinct (group_one g p) ps
      (insert-IsDistinct p.identity_key (get_or (lookup p.identity_key g) [] ++ p ∷ []) g h)

pub mem-group_all :
    (k : Text) (g : Dict (List TvProgram)) (ps : List TvProgram)
    → mem k (keys (group_all g ps)) ≡ (mem k (keys g) || mem k (identity_keys ps))
unfolding group_all mem
mem-group_all k g [] = ground arith
mem-group_all k g (p ∷ ps) = ground (
  arith,
  mem-group_all k (group_one g p) ps,
  mem-keys-insert p.identity_key k (get_or (lookup p.identity_key g) [] ++ p ∷ []) g,
)

IsGroup-append :
    (p : TvProgram) (ps : List TvProgram)
    → (ps ≡ []) ⊎ IsGroup (p.identity_key, ps)
    → IsGroup (p.identity_key, ps ++ p ∷ [])
IsGroup-append p [] h = (refl, tt)
IsGroup-append p (q ∷ qs) (inl e) = cc
IsGroup-append p (q ∷ qs) (inr h) =
    All-append (λ q. q.identity_key ≡ p.identity_key) (q ∷ qs) (p ∷ []) h (refl, tt)

lookup-IsGroup :
    (k : Text) (g : Dict (List TvProgram))
    → IsGrouped g
    → (get_or (lookup k g) [] ≡ []) ⊎ IsGroup (k, get_or (lookup k g) [])
unfolding lookup
lookup-IsGroup k [] h = inl refl
lookup-IsGroup k ((j, ps) ∷ g) h = elim (Bool-cases (j == k)) [
  | inl e ↦ rw e (inr (subst (λ i. IsGroup (i, ps)) ((eq_iff j k).0 e) h.0))
  | inr e ↦ rw e (lookup-IsGroup k g h.1)
]

insert-IsGrouped :
    (k : Text) (ps : List TvProgram) (g : Dict (List TvProgram))
    → IsGroup (k, ps)
    → IsGrouped g
    → IsGrouped (insert k ps g)
unfolding insert
insert-IsGrouped k ps [] h hg = (h, tt)
insert-IsGrouped k ps ((j, qs) ∷ g) h hg = elim (Bool-cases (j == k)) [
  | inl e ↦ rw e (subst (λ i. IsGroup (i, ps)) (sym ((eq_iff j k).0 e)) h, hg.1)
  | inr e ↦ rw e (hg.0, insert-IsGrouped k ps g h hg.1)
]

-- No group is empty, and each holds programs of its key only.
pub group_all-IsGrouped :
    (g : Dict (List TvProgram)) (ps : List TvProgram) → IsGrouped g → IsGrouped (group_all g ps)
unfolding group_all
group_all-IsGrouped g [] h = h
group_all-IsGrouped g (p ∷ ps) h = group_all-IsGrouped (group_one g p) ps (
    insert-IsGrouped p.identity_key (get_or (lookup p.identity_key g) [] ++ p ∷ []) g
      (IsGroup-append p (get_or (lookup p.identity_key g) []) (lookup-IsGroup p.identity_key g h))
      h)

lookup-after :
    (i k : Text) (p : TvProgram) (g : Dict (List TvProgram)) (rest : List TvProgram)
    → get_or (if i == k then some (get_or (lookup i g) [] ++ p ∷ []) else lookup k g) [] ++ rest
      ≡ get_or (lookup k g) [] ++ (if i == k then p ∷ rest else rest)
lookup-after i k p g rest = elim (Bool-cases (i == k)) [
  | inl e ↦ rw (e, (eq_iff i k).0 e) (append_assoc (get_or (lookup k g) []) (p ∷ []) rest)
  | inr e ↦ rw e
]

-- The group of a key holds the programs that have it, in their order.
pub lookup-group_all :
    (k : Text) (g : Dict (List TvProgram)) (ps : List TvProgram)
    → get_or (lookup k (group_all g ps)) [] ≡ get_or (lookup k g) [] ++ having k ps
unfolding group_all
lookup-group_all k g [] = sym (append-nil (get_or (lookup k g) []))
lookup-group_all k g (p ∷ ps) =
    rw
      (
        lookup-group_all k (group_one g p) ps,
        lookup-insert p.identity_key k (get_or (lookup p.identity_key g) [] ++ p ∷ []) g,
      )
      (lookup-after p.identity_key k p g (having k ps))
