-- ===== src/Domain/Dedup/Merge.antt =====
-- What `merge` returns: one program for each identity key, made from the programs that have it.
use mini_agent_go.Prelude.{
  ◌≡◌, refl, sym, ap, ◌∙◌, ◌⊎◌, inl, inr, true, false, some, List, [], ◌∷◌, ◌++◌, arith,
  if◌then◌else◌, Bool-cases, get_or, Text, ◌==◌, eq_iff, eq_refl,
}
use mathlib.Core.List.{append-nil, append_assoc}
use mini_agent_go.Prelude.Dict.{Dict, lookup, keys}
use mini_agent_go.Prelude.Sorted.{mem, mem-sorted_set}
use mini_agent_go.Domain.Models.{TvProgram}
use mini_agent_go.Domain.Dedup.{
  group_one, group_all, merge_group, merge_all, merge, all_source_ids, max_version,
}
use mini_agent_go.Domain.Dedup.Groups.{
  IsDistinct, identity_keys, having, IsGroup, IsGrouped, group_all-IsDistinct, mem-group_all,
  group_all-IsGrouped, lookup-group_all, insert-new, mem-keys-insert, lookup-not_mem,
}

-- A group gives one program, and that has the group's key.
keys-merge_group :
    (k : Text) (ps : List TvProgram) → IsGroup (k, ps) → identity_keys (merge_group ps) ≡ k ∷ []
unfolding merge_group
keys-merge_group k [] h = elim h [ ]
keys-merge_group k (p ∷ []) h = ground arith
keys-merge_group k (p ∷ q ∷ qs) h = ground arith

keys-append :
    (xs ys : List TvProgram) → identity_keys (xs ++ ys) ≡ identity_keys xs ++ identity_keys ys
keys-append [] ys = refl
keys-append (x ∷ xs) ys = ap (λ (t : List Text). x.identity_key ∷ t) (keys-append xs ys)

keys-merge_all : (g : Dict (List TvProgram)) → IsGrouped g → identity_keys (merge_all g) ≡ keys g
unfolding merge_all
keys-merge_all [] h = refl
keys-merge_all ((k, ps) ∷ g) h =
    keys-append (merge_group ps) (merge_all g)
    ∙ rw (keys-merge_group k ps h.0, keys-merge_all g h.1)

keys-merge : (ps : List TvProgram) → identity_keys (merge ps) ≡ keys (group_all [] ps)
unfolding merge
keys-merge ps = keys-merge_all (group_all [] ps) (group_all-IsGrouped [] ps tt)

-- No two programs of the result have one identity key.
pub merge-IsDistinct : (ps : List TvProgram) → IsDistinct (identity_keys (merge ps))
merge-IsDistinct ps = rw (keys-merge ps) (group_all-IsDistinct [] ps tt)

-- The result has the identity keys of the input, and no other.
pub mem-keys-merge :
    (k : Text) (ps : List TvProgram) → mem k (identity_keys (merge ps)) ≡ mem k (identity_keys ps)
mem-keys-merge k ps = rw (keys-merge ps, mem-group_all k [] ps) (unfold mem in refl)

having-append :
    (k : Text) (xs ys : List TvProgram) → having k (xs ++ ys) ≡ having k xs ++ having k ys
having-append k [] ys = refl
having-append k (x ∷ xs) ys = ground (arith, having-append k xs ys)

having-none : (k : Text) (ps : List TvProgram) → mem k (identity_keys ps) ≡ false → having k ps ≡ []
unfolding mem
having-none k [] h = refl
having-none k (p ∷ ps) h = ground (arith, having-none k ps)

having-single :
    (k j : Text) (ps : List TvProgram)
    → identity_keys ps ≡ j ∷ []
    → having k ps ≡ (if j == k then ps else [])
having-single k j [] h = cc
having-single k j (p ∷ []) h = ground arith
having-single k j (p ∷ q ∷ ps) h = ground arith

having-merge_all :
    (k : Text) (g : Dict (List TvProgram))
    → IsGrouped g
    → IsDistinct (keys g)
    → having k (merge_all g) ≡ merge_group (get_or (lookup k g) [])
unfolding merge_all lookup
having-merge_all k [] h d = unfold merge_group in refl
having-merge_all k ((j, ps) ∷ g) h d =
    rw
      (
        having-append k (merge_group ps) (merge_all g),
        having-single k j (merge_group ps) (keys-merge_group j ps h.0),
      )
      (step (Bool-cases (j == k)) (having-merge_all k g h.1 d.1))
  where
    absent : j == k ≡ true → mem k (identity_keys (merge_all g)) ≡ false
    absent e = rw (keys-merge_all g h.1) (rw ((eq_iff j k).0 e) at d.0)

    step :
        (j == k ≡ true) ⊎ (j == k ≡ false)
        → having k (merge_all g) ≡ merge_group (get_or (lookup k g) [])
        → (if j == k then merge_group ps else []) ++ having k (merge_all g)
          ≡ merge_group (get_or (if j == k then some ps else lookup k g) [])
    step (inl e) ih =
        rw e (rw (having-none k (merge_all g) (absent e)) (append-nil (merge_group ps)))
    step (inr e) ih = rw e ih

-- Under each identity key the result has the merge of the programs that had it, in their order.
pub having-merge :
    (k : Text) (ps : List TvProgram) → having k (merge ps) ≡ merge_group (having k ps)
unfolding merge
having-merge k ps =
    having-merge_all k (group_all [] ps) (group_all-IsGrouped [] ps tt)
      (group_all-IsDistinct [] ps tt)
    ∙ ap merge_group (lookup-group_all k [] ps ∙ (unfold lookup in refl))

mem-all_source_ids-merge_group :
    (s : Text) (ps : List TvProgram)
    → mem s (all_source_ids (merge_group ps)) ≡ mem s (all_source_ids ps)
unfolding merge_group
mem-all_source_ids-merge_group s [] = refl
mem-all_source_ids-merge_group s (p ∷ []) = refl
mem-all_source_ids-merge_group s (p ∷ q ∷ ps) =
    rw append-nil (mem-sorted_set s (all_source_ids (p ∷ q ∷ ps)))

-- A source is named under an identity key after the merge exactly if some program of that key named
-- it before.
pub sources-merge :
    (s k : Text) (ps : List TvProgram)
    → mem s (all_source_ids (having k (merge ps))) ≡ mem s (all_source_ids (having k ps))
sources-merge s k ps = rw having-merge (mem-all_source_ids-merge_group s (having k ps))

max_version-merge_group : (ps : List TvProgram) → max_version (merge_group ps) ≡ max_version ps
unfolding max_version merge_group
max_version-merge_group [] = refl
max_version-merge_group (p ∷ []) = refl
max_version-merge_group (p ∷ q ∷ ps) = omega arith

-- The highest version under an identity key is kept.
pub max_version-merge :
    (k : Text) (ps : List TvProgram) → max_version (having k (merge ps)) ≡ max_version (having k ps)
max_version-merge k ps = rw having-merge (max_version-merge_group (having k ps))

merge_all-append :
    (g : Dict (List TvProgram)) (k : Text) (p : TvProgram)
    → merge_all (g ++ (k, p ∷ []) ∷ []) ≡ merge_all g ++ p ∷ []
unfolding merge_all merge_group
merge_all-append [] k p = refl
merge_all-append ((j, qs) ∷ g) k p =
    rw (merge_all-append g k p) (sym (append_assoc (merge_group qs) (merge_all g) (p ∷ [])))

fresh_after :
    (g : Dict (List TvProgram)) (p : TvProgram) (ps : List TvProgram) (j : Text)
    → mem p.identity_key (identity_keys ps) ≡ false
    → mem j (identity_keys ps) ≡ true
    → mem j (keys g) ≡ false
    → mem j (keys (group_one g p)) ≡ false
unfolding group_one
fresh_after g p ps j new m h = ground (
  arith,
  mem-keys-insert p.identity_key j (get_or (lookup p.identity_key g) [] ++ p ∷ []) g,
  eq_iff p.identity_key j,
)

merge_all-group_all :
    (g : Dict (List TvProgram)) (ps : List TvProgram)
    → IsDistinct (identity_keys ps)
    → ((j : Text) → mem j (identity_keys ps) ≡ true → mem j (keys g) ≡ false)
    → merge_all (group_all g ps) ≡ merge_all g ++ ps
unfolding group_all
merge_all-group_all g [] d f = sym (append-nil (merge_all g))
merge_all-group_all g (p ∷ ps) d f =
    let k = p.identity_key in
    let absent : mem k (keys g) ≡ false = f k (unfold mem in ground (arith, eq_refl k)) in
    let grown : group_one g p ≡ g ++ (k, p ∷ []) ∷ [] =
      unfold group_one in rw (lookup-not_mem k g absent, insert-new k (p ∷ []) g absent) refl in
    let later : (j : Text)
        → mem j (identity_keys ps) ≡ true
        → mem j (keys (group_one g p)) ≡ false =
      λ j m. fresh_after g p ps j d.0 m (f j (unfold mem in ground arith)) in
    merge_all-group_all (group_one g p) ps d.1 later
    ∙ ap (λ (t : Dict (List TvProgram)). merge_all t ++ ps) grown
    ∙ ap (λ (t : List TvProgram). t ++ ps) (merge_all-append g k p)
    ∙ append_assoc (merge_all g) (p ∷ []) ps

-- Programs with distinct identity keys are left as they are; so merging twice is merging once.
pub merge_fixed : (ps : List TvProgram) → IsDistinct (identity_keys ps) → merge ps ≡ ps
unfolding merge
merge_fixed ps d =
    merge_all-group_all [] ps d (λ j m. unfold mem in refl) ∙ (unfold merge_all in refl)

pub merge_idem : (ps : List TvProgram) → merge (merge ps) ≡ merge ps
merge_idem ps = merge_fixed (merge ps) (merge-IsDistinct ps)
