-- ===== src/Prelude/Result.antt =====
-- What a call returns or raises, and how a call goes on after another. The hierarchy of exception
-- classes is in `Core.Exceptions`.
use mathlib.Core.Path.{◌≡◌, refl}

infixl 5 ◌>>=◌
pub data Outcome {ℓ κ} (Raised : Type ℓ) (Returned : Type κ) : Type (ℓ ⊔ κ) where
  err : Raised → Outcome Raised Returned
  ok : Returned → Outcome Raised Returned

-- in a `do` block, the first exception is that of the block
abbrev pub ◌>>=◌ {ℓ} : {X S T : Type ℓ} → Outcome X S → (S → Outcome X T) → Outcome X T
err x >>= next = err x
ok s >>= next = next s

-- a block that returns has returned at each step
pub >>=-eq-ok {ℓ} :
    {X S T : Type ℓ} {t : T} (first : Outcome X S) (next : S → Outcome X T)
    → (first >>= next) ≡ ok t
    → (s : S) × (first ≡ ok s) × (next s ≡ ok t)
>>=-eq-ok (err x) next returned = cc
>>=-eq-ok (ok s) next returned = (s, refl, returned)

pub ok-injective {ℓ} : {X S : Type ℓ} (s t : S) → ◌≡◌ {A = Outcome X S} (ok s) (ok t) → s ≡ t
ok-injective s t h = cc
