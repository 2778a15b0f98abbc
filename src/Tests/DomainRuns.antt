-- ===== src/Tests/DomainRuns.antt =====
-- Runs of deduplication and normalization.
use mini_agent_go.Prelude.{◌≡◌, true, List, [], ◌∷◌, codes, ◌==◌}
use mini_agent_go.Prelude.Sorted.{mem}
use mini_agent_go.Domain.Models.{TvProgram}
use mini_agent_go.Domain.Normalization.{normalize_title}
use mini_agent_go.Domain.Normalization.Title.{IsTidy, normalize_title-IsTidy}
use mini_agent_go.Domain.Dedup.{merge, merge_group, all_source_ids}
use mini_agent_go.Domain.Dedup.Groups.{IsDistinct, identity_keys, having}
use mini_agent_go.Domain.Dedup.Merge.{merge-IsDistinct, having-merge, sources-merge}
use mini_agent_go.Tests.Samples.{news, news_again, film}

abbrev three : List TvProgram
three = news ∷ film ∷ news_again ∷ []

merge-IsDistinct_example : IsDistinct (identity_keys (merge three))
merge-IsDistinct_example = merge-IsDistinct three

having-merge_example : having (codes "k1") (merge three) ≡ merge_group (news ∷ news_again ∷ [])
unfolding ◌==◌
having-merge_example = having-merge (codes "k1") three

sources-merge_example : mem (codes "s0") (all_source_ids (having (codes "k1") (merge three))) ≡ true
unfolding mem ◌==◌
sources-merge_example = sources-merge (codes "s0") (codes "k1") three

normalize_title-IsTidy_example :
    IsTidy (codes "  Late   News ") (normalize_title (codes "  Late   News "))
normalize_title-IsTidy_example = normalize_title-IsTidy (codes "  Late   News ")
