-- ===== src/Infra/Programs/Mapping.antt =====
-- Programs as rows and back.
use mini_agent_go.Prelude.{◌≡◌, refl, ap, some, List, [], ◌∷◌, map, Text, some_text, ◌==◌}
use mini_agent_go.Domain.Models.{Json, Tag, TvProgram}
use mini_agent_go.Infra.Programs.{field, dump_tag, load_tag, load_tags, to_domain, from_domain}

pub load_tags-dump_tag :
    (repr : Json → Text) (ts : List Tag) → load_tags repr (map dump_tag ts) ≡ ts
unfolding load_tags dump_tag load_tag field ◌==◌
load_tags-dump_tag repr [] = refl
load_tags-dump_tag repr (t ∷ ts) = ap (λ (us : List Tag). t ∷ us) (load_tags-dump_tag repr ts)

-- A program that has an id comes back from its row as it was; one without comes back with the empty
-- id and is otherwise as it was.
pub to_domain-from_domain :
    (repr : Json → Text) (p : TvProgram)
    → to_domain repr (from_domain p) ≡ record p { id = some (some_text p.id) }
unfolding to_domain from_domain
to_domain-from_domain repr p = rw (load_tags-dump_tag repr p.tags) refl
