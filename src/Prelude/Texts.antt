-- ===== src/Prelude/Texts.antt =====
-- Python's `str` as the list of its code points, with equality and truthiness.
use Prim.Native.Nat.{ℕ, zero, suc, ◌+◌, ◌/◌, ◌%◌}
use Prim.Native.Char.{code}
use Prim.Native.String.{String}
use mathlib.Core.Path.{◌≡◌, refl}
use mathlib.Core.Logic.{◌↔◌, ◌≢◌}
use mathlib.Core.Bool.{Bool, true, false, ◌&&◌}
use mathlib.Core.Option.{Option, none, some}
use mathlib.Core.List.{List, [], ◌∷◌}
use native.Mathlib.Omega.{arith}
use mini_agent_go.Prelude.Tests.{if◌then◌else◌, ltb, eqb}

abbrev pub Text : Type 0
Text = List ℕ

-- A literal's code points.
abbrev pub codes : String → Text
codes String.[] = []
codes (String.◌∷◌ c s) = code c ∷ codes s

abbrev pub empty_text : Text
empty_text = []

-- `not s`
abbrev pub is_empty : Text → Bool
is_empty [] = true
is_empty (c ∷ s) = false

-- `s or t`
abbrev pub or_text : Text → Text → Text
or_text [] t = t
or_text (c ∷ s) t = c ∷ s

-- `s or ""`, for an optional text
abbrev pub some_text : Option Text → Text
some_text none = []
some_text (some s) = s

abbrev pub all_text : (ℕ → Bool) → Text → Bool
all_text p [] = true
all_text p (c ∷ s) = p c && all_text p s

infix 50 ◌==◌
unfoldable pub ◌==◌ : Text → Text → Bool
[] == [] = true
[] == (d ∷ t) = false
(c ∷ s) == [] = false
(c ∷ s) == (d ∷ t) = eqb c d && (s == t)

eq-true : (s t : Text) → (s == t) ≡ true → s ≡ t
unfolding ◌==◌
eq-true [] [] h = refl
eq-true [] (d ∷ t) h = cc
eq-true (c ∷ s) [] h = cc
eq-true (c ∷ s) (d ∷ t) h = ground (arith, eq-true s t)

pub eq_refl : (s : Text) → (s == s) ≡ true
unfolding ◌==◌
eq_refl [] = refl
eq_refl (c ∷ s) = ground (arith, eq_refl s)

pub eq_iff : (s t : Text) → ((s == t) ≡ true) ↔ (s ≡ t)
eq_iff s t = (eq-true s t, λ e. rw e (eq_refl t))

pub eq-false : (s t : Text) → s ≢ t → (s == t) ≡ false
eq-false s t h = ground (arith, eq_iff s t)

pub eq_sym : (s t : Text) → (s == t) ≡ (t == s)
eq_sym s t = ground (arith, eq_iff s t, eq_iff t s)

decimal_from : ℕ → ℕ → Text → Text
decimal_from zero n s = s
decimal_from (suc f) n s =
    let t = (n % 10 + 48) ∷ s in
    let rest = decimal_from f (n / 10) t in if ltb n 10 then t else rest

-- `str(n)`; the fuel is enough, since each round divides by ten
unfoldable pub decimal : ℕ → Text
unfolding decimal_from
decimal n = decimal_from (n + 1) n []

decimal_429 : decimal 429 ≡ codes "429"
unfolding decimal
decimal_429 = refl
