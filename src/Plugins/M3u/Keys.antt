-- ===== src/Plugins/M3u/Keys.antt =====
-- The identity of an entry from one crawl to the next.
use mini_agent_go.Prelude.{
  ℕ, ◌+◌, ◌≡◌, refl, inl, inr, Bool, true, false, List, [], ◌∷◌, if◌then◌else◌, Bool-cases, is_some,
  Text, codes, empty_text, or_text, Outcome, ok, err, ◌>>=◌,
}
use mini_agent_go.Core.Exceptions.{Exn}
use mini_agent_go.Domain.Models.{TvProgram, Channel}
use mini_agent_go.Domain.Normalization.{strip}
use mini_agent_go.Plugins.Base.{Env, make_channel}
use mini_agent_go.Plugins.M3u.{
  entry, entries, parse_m3u, after, splitlines, is_extinf, tvg_of, name_of,
}

-- Two results of the parser that agree on all but times and ids: the same error, or programs with the
-- same identity keys, titles, channels and URLs in the same order.
abbrev pub SameEntries : List TvProgram → List TvProgram → Type 0
SameEntries [] [] = Unit
SameEntries [] (q ∷ qs) = ⊥
SameEntries (p ∷ ps) [] = ⊥
SameEntries (p ∷ ps) (q ∷ qs) =
    ((p.identity_key ≡ q.identity_key)
      × (p.title ≡ q.title)
      × (p.channel ≡ q.channel)
      × (p.description ≡ q.description))
    × SameEntries ps qs

abbrev pub SameResult : Outcome Exn (List TvProgram) → Outcome Exn (List TvProgram) → Type 0
SameResult (ok ps) (ok qs) = SameEntries ps qs
SameResult (ok ps) (err e) = ⊥
SameResult (err e) (ok qs) = ⊥
SameResult (err e) (err f) = e ≡ f

abbrev SameEntry : Outcome Exn TvProgram → Outcome Exn TvProgram → Type 0
SameEntry (ok p) (ok q) = SameEntries (p ∷ []) (q ∷ [])
SameEntry (ok p) (err e) = ⊥
SameEntry (err e) (ok q) = ⊥
SameEntry (err e) (err f) = e ≡ f

>>=-same :
    (o : Outcome Exn Channel) (f g : Channel → Outcome Exn TvProgram)
    → ((c : Channel) → SameEntry (f c) (g c))
    → SameEntry (o >>= f) (o >>= g)
>>=-same (ok c) f g h = h c
>>=-same (err e) f g h = refl

if-same :
    (b : Bool) (p q : TvProgram) (e : Exn)
    → SameEntry (ok p) (ok q)
    → SameEntry (if b then ok p else err e) (if b then ok q else err e)
if-same true p q e h = h
if-same false p q e h = refl

one-same :
    (o u : Outcome Exn TvProgram)
    → SameEntry o u
    → SameResult (do p ← o; ok (p ∷ [])) (do p ← u; ok (p ∷ []))
one-same (ok p) (ok q) h = h
one-same (ok p) (err e) h = h
one-same (err e) (ok q) h = h
one-same (err e) (err f) h = h

cons-same :
    (o u : Outcome Exn TvProgram) (r v : Outcome Exn (List TvProgram))
    → SameEntry o u
    → SameResult r v
    → SameResult (do p ← o; ps ← r; ok (p ∷ ps)) (do p ← u; ps ← v; ok (p ∷ ps))
cons-same (ok p) (ok q) (ok ps) (ok qs) h k = (h.0, k)
cons-same (ok p) (ok q) (ok ps) (err f) h k = k
cons-same (ok p) (ok q) (err e) (ok qs) h k = k
cons-same (ok p) (ok q) (err e) (err f) h k = k
cons-same (ok p) (err e) r v h k = absurd h
cons-same (err e) (ok q) r v h k = absurd h
cons-same (err e) (err f) r v h k = h

module _ (env : Env) (now now' : ℕ) (ids ids' : ℕ → Text) (source_id : Text) where
  entry-same :
      (id id' line url : Text)
      → SameEntry (entry env now id source_id line url) (entry env now' id' source_id line url)
  unfolding entry
  entry-same id id' line url =
      >>=-same (make_channel (or_text (tvg_of env line) (name_of env line)) (name_of env line)) _ _
        (λ c. if-same _ _ _ _ ((refl, refl, refl, refl), tt))

  entries-same :
      (n m : ℕ) (lines : List Text)
      → SameResult (entries env now ids source_id n lines) (entries env now' ids' source_id m lines)
  unfolding entries
  entries-same n m [] = tt
  entries-same n m (line ∷ []) = elim (Bool-cases (is_extinf env (strip line))) [
    | inl h ↦ rw h (
        one-same (entry env now (ids n) source_id (strip line) empty_text)
          (entry env now' (ids' m) source_id (strip line) empty_text)
          (entry-same (ids n) (ids' m) (strip line) empty_text))
    | inr h ↦ rw h tt
  ]
  entries-same n m (line ∷ url ∷ lines) = elim (Bool-cases (is_extinf env (strip line))) [
    | inl h ↦ rw h (
        cons-same (entry env now (ids n) source_id (strip line) (strip url))
          (entry env now' (ids' m) source_id (strip line) (strip url))
          (entries env now ids source_id (n + 1) lines)
          (entries env now' ids' source_id (m + 1) lines)
          (entry-same (ids n) (ids' m) (strip line) (strip url))
          (entries-same (n + 1) (m + 1) lines))
    | inr h ↦ rw h (entries-same n m (url ∷ lines))
  ]

  -- To parse the same bytes at another time, with other new ids, gives the same entries: the identity
  -- keys do not depend on the time, so that a second crawl finds the rows of the first.
  pub parse_m3u-same :
      (body : Text)
      → SameResult (parse_m3u env now ids body source_id) (parse_m3u env now' ids' body source_id)
  unfolding parse_m3u
  parse_m3u-same body = elim (Bool-cases (is_some (after (codes "#EXTM3U") (env.decode body)))) [
    | inl h ↦ rw h (entries-same 0 0 (splitlines (env.decode body)))
    | inr h ↦ rw h refl
  ]
