-- ===== src/Tests/CoreRuns.antt =====
-- Runs of the cache and the settings.
use mini_agent_go.Prelude.{
  ℕ, ◌+◌, ◌≤◌, ◌≡◌, refl, ◌⊎◌, Option, some, [], ◌∷◌, arith, All, Text, codes, Outcome, ok,
}
use mini_agent_go.Prelude.Dict.{lookup, insert}
use mini_agent_go.Core.Exceptions.{Exn}
use mini_agent_go.Core.Cache.{Clock, State, get, set, get_or_set}
use mini_agent_go.Core.Cache.Flight.{
  Flight, free, Reach, slow, acquire, load, finish, here, next, single_flight,
}

abbrev key : Text
key = codes "a"

abbrev idle : Flight ℕ
idle = record { now = 5; store = []; lock = free; loads = 0; returned = [] }

abbrev done : Flight ℕ
done = record {
  now = 5;
  store = (key, record { value = some 7; expire_at = 15 }) ∷ [];
  lock = free;
  loads = 1;
  returned = 7 ∷ [];
}

-- a task misses, takes the lock, misses again and loads 7
one_load : Reach key 10 idle done
unfolding set insert get lookup
one_load =
    next (next (next (next here (slow refl)) (acquire refl)) (load refl refl)) (finish 7 refl)

single_flight_example :
    (done.loads ≤ 1) × ((done.returned ≡ []) ⊎ ((v : ℕ) × All (λ a. a ≡ v) done.returned))
unfolding lookup
single_flight_example = single_flight key 10 one_load refl refl refl (omega arith)

abbrev clock : Clock
clock = record { first = 5; second = 5; stored = 6 }

abbrev seven : State ℕ ℕ → Outcome Exn (Option ℕ) × State ℕ ℕ
seven (c, w) = (ok (some 7), (c, w + 1))

abbrev answer : Outcome Exn (Option ℕ) × State ℕ ℕ
answer = get_or_set clock key 10 (λ s. s) seven ([], 0)
