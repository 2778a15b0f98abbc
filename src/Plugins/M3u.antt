-- ===== src/Plugins/M3u.antt =====
-- plugins/sources/m3u_source.py. `new_id` gives the `uuid4` of each entry, by the number of entries
-- before it.
pub mod Keys
use mini_agent_go.Prelude.{
  ℕ, zero, suc, ◌+◌, ◌-◌, ◌*◌, ◌/◌, ◌%◌, ◌≤◌, ◌<◌, ◌≡◌, refl, sym, ap, ◌∙◌, ◌≢◌, ◌↔◌, ◌⊎◌, inl, inr,
  Bool, true, false, not, ◌&&◌, ◌||◌, Option, none, some, List, [], ◌∷◌, ◌++◌, map, arith, ltb, leb,
  eqb, if◌then◌else◌, eqb_iff, Bool-cases, Option-cases, is_some, get_or, length, take, filter, all,
  find, All, length-append, length-filter, length-take, length-map, All-append, Text, codes,
  empty_text, is_empty, or_text, some_text, all_text, ◌==◌, decimal, eq_iff, eq_refl, eq-false,
  eq_sym, Outcome, ok, err, ◌>>=◌, >>=-eq-ok,
}
use mini_agent_go.Prelude.Dict.{Dict}
use mini_agent_go.Core.Exceptions.{Exn, raise, parse, value_error, validation}
use mini_agent_go.Domain.Models.{TvProgram, TvListSource, Channel}
use mini_agent_go.Domain.Normalization.{strip}
use mini_agent_go.Infra.Http.{FetchResult}
use mini_agent_go.Plugins.Base.{Env, make_channel, between}
use mini_agent_go.Services.Checks.{headers_or_none}

-- what follows the prefix, if it is there
unfoldable pub drop_prefix : Text → Text → Option Text
drop_prefix [] t = some t
drop_prefix (c ∷ p) [] = none
drop_prefix (c ∷ p) (d ∷ t) = let rest = drop_prefix p t in if eqb c d then rest else none

-- what follows the first occurrence, if there is one
unfoldable pub after : Text → Text → Option Text
unfolding drop_prefix
after p [] = drop_prefix p []
after p (c ∷ t) =
    let rest = after p t in elim (drop_prefix p (c ∷ t)) [ none ↦ rest | some r ↦ some r ]

-- `t.split(c, 1)[0]`
unfoldable pub before : ℕ → Text → Text
before c [] = []
before c (d ∷ t) = let rest = before c t in if eqb c d then [] else d ∷ rest

-- the characters at which `str.splitlines` breaks
ends_line : ℕ → Bool
ends_line c =
    leb 10 c && leb c 13 || (leb 28 c && leb c 30 || (eqb c 133 || (eqb c 8232 || eqb c 8233)))

put_char : ℕ → List Text → List Text
put_char c [] = (c ∷ []) ∷ []
put_char c (l ∷ ls) = (c ∷ l) ∷ ls

-- `str.splitlines`; the flag says that the last character was a carriage return
lines_from : Bool → Text → List Text
unfolding ends_line put_char
lines_from cr [] = []
lines_from cr (c ∷ t) =
    let rest = lines_from (eqb c 13) t in
    if cr && eqb c 10 then rest else if ends_line c then [] ∷ rest else put_char c rest

unfoldable pub splitlines : Text → List Text
unfolding lines_from
splitlines t = lines_from false t

module _ (env : Env) where
  -- `_stable_m3u_key`
  unfoldable pub stable_m3u_key : Text → Text → Text → Text
  stable_m3u_key source_id channel_id url =
      env.sha1 (codes "m3u|" ++ (source_id ++ (codes "|" ++ (channel_id ++ (codes "|" ++ url)))))

  -- `fetch`
  unfoldable pub fetch :
      {W : Type 0} (get : Text → Option (Dict Text) → W → Outcome Exn FetchResult × W)
      → TvListSource
      → W
      → Outcome Exn FetchResult × W
  fetch get s w =
      let url = some_text s.url in
      if is_empty url
      then (raise value_error (codes "source " ++ (s.id ++ codes " has no url")), w)
      else get url (headers_or_none s.headers) w

  name_of : Text → Text
  unfolding after strip
  name_of line = elim (after (codes ",") line) [ none ↦ codes "unknown" | some t ↦ strip t ]

  tvg_of : Text → Text
  unfolding after before
  tvg_of line = elim (after (codes "tvg-id=\"") line) [ none ↦ empty_text | some t ↦ before 34 t ]

  -- the program of an "#EXTINF" line and the line that follows it
  unfoldable pub entry : ℕ → Text → Text → Text → Text → Outcome Exn TvProgram
  unfolding name_of tvg_of stable_m3u_key make_channel
  entry now id source_id line url = do
    let_channel ← make_channel (or_text (tvg_of line) (name_of line)) (name_of line)
    if between 1 512 (name_of line ++ codes " (m3u entry)")
        then ok (record {
          id = some id;
          title = name_of line ++ codes " (m3u entry)";
          description = some url;
          channel = let_channel;
          slot = record {
            start = now - now % 86400000000;
            finish = now - now % 86400000000 + 86399000000;
            timezone = codes "UTC";
          };
          tags = [];
          source_ids = source_id ∷ [];
          identity_key = stable_m3u_key source_id (or_text (tvg_of line) (name_of line)) url;
          created_at = now;
          updated_at = now;
          version = 1;
        })
        else raise validation (codes "title")

  is_extinf : Text → Bool
  unfolding drop_prefix
  is_extinf line = is_some (drop_prefix (codes "#EXTINF") line)

  -- the `while` loop, with `n` entries so far
  unfoldable pub entries : ℕ → (ℕ → Text) → Text → ℕ → List Text → Outcome Exn (List TvProgram)
  unfolding entry is_extinf strip
  entries now new_id source_id n [] = ok []
  entries now new_id source_id n (line ∷ []) =
      if is_extinf (strip line)
      then (do p ← entry now (new_id n) source_id (strip line) empty_text; ok (p ∷ []))
      else ok []
  entries now new_id source_id n (line ∷ url ∷ lines) =
      let after_entry = entries now new_id source_id (n + 1) lines in
      let after_line = entries now new_id source_id n (url ∷ lines) in
      if is_extinf (strip line)
      then (do
        p ← entry now (new_id n) source_id (strip line) (strip url)
        ps ← after_entry
        ok (p ∷ ps))
      else after_line

  -- `parse`
  unfoldable pub parse_m3u : ℕ → (ℕ → Text) → Text → Text → Outcome Exn (List TvProgram)
  unfolding entries splitlines after
  parse_m3u now new_id body source_id =
      let t = env.decode body in
      if is_some (after (codes "#EXTM3U") t)
      then entries now new_id source_id 0 (splitlines t)
      else raise parse (codes "not a valid m3u file")
