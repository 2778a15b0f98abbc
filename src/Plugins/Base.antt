-- ===== src/Plugins/Base.antt =====
-- plugins/parsers/base.py. `Env` is what the parsers use of Python's library.
use mini_agent_go.Prelude.{
  ℕ, Bool, ◌&&◌, Option, none, some, [], ◌∷◌, ◌++◌, leb, if◌then◌else◌, length, Text, codes,
  Outcome, ok, ◌>>=◌,
}
use mini_agent_go.Core.Exceptions.{Exn, raise, validation}
use mini_agent_go.Domain.Models.{Json, null, text, TvProgram, Channel}
use mini_agent_go.Domain.Normalization.{strip}

pub record Env : Type 0 where
  -- `str.lower`, `datetime.isoformat` and the hex digest of SHA-1
  pub lower : Text → Text
  pub isoformat : ℕ → Text
  pub sha1 : Text → Text
  -- `datetime.fromisoformat`; `none` is its `ValueError`
  pub fromisoformat : Text → Option ℕ
  -- `json.loads`; an error is a `JSONDecodeError`
  pub loads : Text → Outcome Exn Json
  -- `str` of a JSON value that is no text
  pub repr : Json → Text
  -- `bytes.decode("utf-8", errors="ignore")`
  pub decode : Text → Text

-- `Field(min_length=m, max_length=n)`
abbrev pub between : ℕ → ℕ → Text → Bool
between m n t = leb m (length t) && leb (length t) n

-- `Channel(id=…, name=…)`
unfoldable pub make_channel : Text → Text → Outcome Exn Channel
make_channel id name =
    if between 1 64 id && between 1 255 name
    then ok (record { id = id; name = name; logo_url = none; country = none; language = none })
    else raise validation (codes "channel")

-- pydantic takes a text or null for a description, and nothing else
abbrev pub description_of : Option Json → Outcome Exn (Option Text)
description_of none = ok none
description_of (some null) = ok none
description_of (some (text t)) = ok (some t)
description_of (some v) = raise validation (codes "description")

module _ (env : Env) where
  unfoldable pub make_identity_key : Text → Text → ℕ → Text
  unfolding strip
  make_identity_key title channel_id start =
      env.sha1 (
        env.lower (strip title)
        ++ (codes "|" ++ (channel_id ++ (codes "|" ++ env.isoformat start))))

  -- `to_program`, without tags: no caller gives them
  unfoldable pub to_program :
      ℕ → Text → Channel → ℕ → ℕ → Option Json → Text → Outcome Exn TvProgram
  unfolding make_identity_key strip
  to_program now title channel start finish description source_id = do
    described ← description_of description
    if between 1 512 (strip title)
        then ok (record {
          id = none;
          title = strip title;
          description = described;
          channel = channel;
          slot = record { start = start; finish = finish; timezone = codes "UTC" };
          tags = [];
          source_ids = source_id ∷ [];
          identity_key = make_identity_key title channel.id start;
          created_at = now;
          updated_at = now;
          version = 1;
        })
        else raise validation (codes "title")
