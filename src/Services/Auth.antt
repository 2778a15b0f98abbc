-- ===== src/Services/Auth.antt =====
-- domain/services/auth_service.py, and `_seed_default_users` of interfaces/api/app.py. `Passwords`
-- is passlib's context.
pub mod Accounts
use mini_agent_go.Prelude.{
  ℕ, zero, suc, ◌+◌, ◌-◌, ◌*◌, ◌/◌, ◌%◌, ◌≤◌, ◌<◌, ◌≡◌, refl, sym, ap, ◌∙◌, ◌≢◌, ◌↔◌, ◌⊎◌, inl, inr,
  Bool, true, false, not, ◌&&◌, ◌||◌, Option, none, some, List, [], ◌∷◌, ◌++◌, map, arith, ltb, leb,
  eqb, if◌then◌else◌, eqb_iff, Bool-cases, Option-cases, is_some, get_or, length, take, filter, all,
  find, All, length-append, length-filter, length-take, length-map, All-append, Text, codes,
  empty_text, is_empty, or_text, some_text, all_text, ◌==◌, decimal, eq_iff, eq_refl, eq-false,
  eq_sym, Outcome, ok, err, ◌>>=◌, >>=-eq-ok,
}
use mini_agent_go.Core.Exceptions.{Exn}
use mini_agent_go.Core.Settings.{Settings, is_production}
use mini_agent_go.Domain.Models.{User}
use mini_agent_go.Domain.Normalization.{strip}
use mini_agent_go.Infra.Table.{Table}
use mini_agent_go.Infra.Users
use mini_agent_go.Infra.Users.{UserRow, UserColumn, user_cell, make_user}

pub record Passwords : Type 0 where
  pub hash : Text → Outcome Exn Text
  pub verify : Text → Text → Outcome Exn Bool
  pub verify-hash : (plain hashed : Text) → hash plain ≡ ok hashed → verify plain hashed ≡ ok true

-- `except Exception: return False`
abbrev true_only : Outcome Exn Bool → Bool
true_only (ok b) = b
true_only (err e) = false

-- `str.split` at one character
unfoldable pub split : ℕ → Text → List Text
split sep [] = [] ∷ []
split sep (c ∷ s) =
    let rest = split sep s in
    if eqb c sep
    then [] ∷ rest
    else elim rest [ [] ↦ (c ∷ []) ∷ [] | word ∷ words ↦ (c ∷ word) ∷ words ]

module _ (pwd : Passwords) where
  unfoldable pub verify_password : Text → Text → Bool
  verify_password plain hashed = true_only (pwd.verify plain hashed)

  module _ (table : Table UserRow UserColumn user_cell) where
    open table use {Store}

    checked : Text → Outcome Exn (Option (User × Text)) → Outcome Exn (Option User)
    unfolding verify_password
    checked password (err e) = err e
    checked password (ok none) = ok none
    checked password (ok (some (user, password_hash))) =
        if user.disabled
        then ok none
        else if not (verify_password password password_hash)
        then ok none
        else ok (some user)

    unfoldable pub authenticate : Text → Text → Store → Outcome Exn (Option User)
    unfolding checked
    authenticate username password st = checked password (Users.get_by_username table username st)

    -- `id` is `uuid4`, `now` the clock
    unfoldable pub create_user : Text → ℕ → Text → Text → Text → Store → Outcome Exn (User × Store)
    create_user id now username password role st = do
      user ←
          make_user (record {
            id = id;
            username = username;
            role = role;
            created_at = now;
            disabled = false;
          })
      hashed ← pwd.hash password
      st' ← Users.add table user hashed st
      ok (user, st')

    create_missing :
        Text → ℕ → Text → Text → Text → Store → Option (User × Text) → Outcome Exn Store
    unfolding create_user
    create_missing id now username password role st (some u) = ok st
    create_missing id now username password role st none = do
      r ← create_user id now username password role st
      ok r.1

    -- one entry, `username:password:role`; any other is passed over
    seed_entry : Text → ℕ → List Text → Store → Outcome Exn Store
    unfolding create_missing
    seed_entry id now (username ∷ password ∷ role ∷ []) st = do
      existing ← Users.get_by_username table username st
      create_missing id now username password role st existing
    seed_entry id now _ st = ok st

    unfoldable pub seed_entries : (ℕ → Text) → ℕ → List Text → Store → Outcome Exn Store
    unfolding seed_entry split strip
    seed_entries new_id now [] st = ok st
    seed_entries new_id now (entry ∷ entries) st = do
      st' ← seed_entry (new_id (length entries)) now (split 58 (strip entry)) st
      seed_entries new_id now entries st'

    -- `_seed_default_users`; what it has written is committed at the end, or not at all. `new_id`
    -- gives the `uuid4` of the entry that so many others follow.
    unfoldable pub seed_default_users :
        (Text → Text) → Settings → (ℕ → Text) → ℕ → Store → Outcome Exn Store
    unfolding seed_entries split
    seed_default_users lower s new_id now st =
        if is_production lower s || is_empty s.seed_users
        then ok st
        else seed_entries new_id now (split 44 s.seed_users) st
