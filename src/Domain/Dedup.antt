-- ===== src/Domain/Dedup.antt =====
-- domain/services/dedup_service.py
pub mod Groups
pub mod Merge
use mini_agent_go.Prelude.{
  ℕ, zero, suc, ◌+◌, ◌-◌, ◌*◌, ◌/◌, ◌%◌, ◌≤◌, ◌<◌, ◌≡◌, refl, sym, ap, ◌∙◌, ◌≢◌, ◌↔◌, ◌⊎◌, inl, inr,
  Bool, true, false, not, ◌&&◌, ◌||◌, Option, none, some, List, [], ◌∷◌, ◌++◌, map, arith, ltb, leb,
  eqb, if◌then◌else◌, eqb_iff, Bool-cases, Option-cases, is_some, get_or, length, take, filter, all,
  find, All, length-append, length-filter, length-take, length-map, All-append, Text, codes,
  empty_text, is_empty, or_text, some_text, all_text, ◌==◌, eq_iff, eq_refl, eq-false, eq_sym,
  Outcome, ok, err, ◌>>=◌, >>=-eq-ok,
}
use Prim.Native.Nat.{max}
use mini_agent_go.Prelude.Dict.{Dict, lookup, insert}
use mini_agent_go.Prelude.Sorted.{sorted_set}
use mini_agent_go.Domain.Models.{TvProgram, Tag}

-- `groups[p.identity_key].append(p)`
unfoldable pub group_one : Dict (List TvProgram) → TvProgram → Dict (List TvProgram)
group_one g p = insert p.identity_key (get_or (lookup p.identity_key g) [] ++ p ∷ []) g

unfoldable pub group_all : Dict (List TvProgram) → List TvProgram → Dict (List TvProgram)
unfolding group_one
group_all g [] = g
group_all g (p ∷ ps) = group_all (group_one g p) ps

-- `[sid for p in items for sid in p.source_ids]`
abbrev pub all_source_ids : List TvProgram → List Text
all_source_ids [] = []
all_source_ids (p ∷ ps) = p.source_ids ++ all_source_ids ps

abbrev has_text : Option Text → Bool
has_text none = false
has_text (some s) = not (is_empty s)

-- the first description that is there and not empty
unfoldable pub first_description : List TvProgram → Option Text → Option Text
first_description [] d = d
first_description (p ∷ ps) d =
    let rest = first_description ps d in if has_text p.description then p.description else rest

-- `tag_set[(t.label, t.category)] = t`: a tag with that pair keeps its place
unfoldable pub put_tag : Tag → List Tag → List Tag
put_tag t [] = t ∷ []
put_tag t (u ∷ us) =
    let rest = put_tag t us in
    if u.label == t.label && (u.category == t.category) then t ∷ us else u ∷ rest

unfoldable pub put_tags : List Tag → List Tag → List Tag
unfolding put_tag
put_tags set [] = set
put_tags set (t ∷ ts) = put_tags (put_tag t set) ts

unfoldable pub all_tags : List Tag → List TvProgram → List Tag
unfolding put_tags
all_tags set [] = set
all_tags set (p ∷ ps) = all_tags (put_tags set p.tags) ps

unfoldable pub max_version : List TvProgram → ℕ
max_version [] = 0
max_version (p ∷ ps) = max p.version (max_version ps)

-- What is appended to `merged` for a group. No group is empty (`Groups.group_all-IsGrouped`).
unfoldable pub merge_group : List TvProgram → List TvProgram
unfolding first_description all_tags max_version
merge_group [] = []
merge_group (p ∷ []) = p ∷ []
merge_group (p ∷ q ∷ rest) =
    let items = p ∷ q ∷ rest in
    record p {
      source_ids = sorted_set (all_source_ids items);
      description = first_description items p.description;
      tags = all_tags [] items;
      version = max_version items;
    }
    ∷ []

unfoldable pub merge_all : Dict (List TvProgram) → List TvProgram
merge_all [] = []
merge_all ((k, items) ∷ g) = merge_group items ++ merge_all g

unfoldable pub merge : List TvProgram → List TvProgram
unfolding group_all merge_all
merge programs = merge_all (group_all [] programs)
