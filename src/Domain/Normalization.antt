-- ===== src/Domain/Normalization.antt =====
-- domain/services/normalization_service.py, over `re` and `str` on code points.
pub mod Title
use mini_agent_go.Prelude.{ℕ, Bool, false, ◌&&◌, ◌||◌, [], ◌∷◌, leb, eqb, if◌then◌else◌, Text}

-- `str.isspace` of one character, which is also `\s` of `re`
unfoldable pub is_space : ℕ → Bool
is_space c =
    (leb 9 c && leb c 13)
    || (leb 28 c && leb c 32)
    || eqb c 133
    || eqb c 160
    || eqb c 5760
    || (leb 8192 c && leb c 8202)
    || eqb c 8232
    || eqb c 8233
    || eqb c 8239
    || eqb c 8287
    || eqb c 12288

unfoldable pub lstrip : Text → Text
lstrip [] = []
lstrip (c ∷ s) = let rest = lstrip s in if is_space c then rest else c ∷ s

-- `rstrip`: `c` stays if it or anything behind it does
abbrev keep_last : ℕ → Text → Text
keep_last c [] = if is_space c then [] else c ∷ []
keep_last c (d ∷ s) = c ∷ d ∷ s

unfoldable pub rstrip : Text → Text
rstrip [] = []
rstrip (c ∷ s) = keep_last c (rstrip s)

-- `str.strip`
unfoldable pub strip : Text → Text
unfolding lstrip rstrip
strip s = rstrip (lstrip s)

-- `re.sub(r"\s+", " ", s)`; the flag says that the last character was a space
squeeze : Bool → Text → Text
squeeze after [] = []
squeeze after (c ∷ s) =
    let rest = squeeze (is_space c) s in
    if is_space c then (if after then rest else 32 ∷ rest) else c ∷ rest

unfoldable pub collapse : Text → Text
unfolding squeeze
collapse s = squeeze false s

unfoldable pub normalize_title : Text → Text
unfolding collapse strip
normalize_title title = strip (collapse title)

-- `lower` is `str.lower`
unfoldable pub normalize_channel_id : (Text → Text) → Text → Text
unfolding strip
normalize_channel_id lower channel_id = strip (lower channel_id)
