-- ===== src/Infra/Users.antt =====
-- infrastructure/persistence/user_repository_impl.py and `UserRow` of models.py.
use mini_agent_go.Prelude.{
  ℕ, Bool, not, ◌&&◌, ◌||◌, Option, none, some, List, [], ◌∷◌, leb, if◌then◌else◌, length, Text,
  codes, is_empty, ◌==◌, Outcome, ok, ◌>>=◌,
}
use mini_agent_go.Core.Exceptions.{Exn, raise, validation}
use mini_agent_go.Domain.Models.{User}
use mini_agent_go.Infra.Table.{Table}

pub record UserRow : Type 0 where
  pub id : Text
  pub username : Text
  pub password_hash : Text
  pub role : Text
  pub created_at : ℕ
  pub disabled : Bool

-- the columns with `primary_key=True` and `unique=True`
pub data UserColumn : Type 0 where
  by_id by_username : UserColumn

abbrev pub user_cell : UserColumn → UserRow → Text
user_cell by_id r = r.id
user_cell by_username r = r.username

-- what pydantic asks of a `User`: `min_length=1, max_length=64`, and the literals of `Role`
unfoldable pub is_user : User → Bool
is_user u =
    not (is_empty u.username)
    && (leb (length u.username) 64 && (u.role == codes "admin" || (u.role == codes "user")))

-- `User(...)`
unfoldable pub make_user : User → Outcome Exn User
unfolding is_user
make_user u = if is_user u then ok u else raise validation u.username

-- `_to_domain`
unfoldable pub to_domain : UserRow → Outcome Exn User
unfolding make_user
to_domain r = make_user (record {
  id = r.id;
  username = r.username;
  role = r.role;
  created_at = r.created_at;
  disabled = r.disabled;
})

-- the row that `add` makes
unfoldable pub new_row : User → Text → UserRow
new_row u password_hash = record {
  id = u.id;
  username = u.username;
  password_hash = password_hash;
  role = u.role;
  created_at = u.created_at;
  disabled = u.disabled;
}

-- `order_by(created_at)`
put_row : UserRow → List UserRow → List UserRow
put_row r [] = r ∷ []
put_row r (q ∷ qs) =
    let rest = put_row r qs in if leb r.created_at q.created_at then r ∷ q ∷ qs else q ∷ rest

oldest_first : List UserRow → List UserRow
unfolding put_row
oldest_first [] = []
oldest_first (r ∷ rs) = put_row r (oldest_first rs)

to_domains : List UserRow → Outcome Exn (List User)
unfolding to_domain
to_domains [] = ok []
to_domains (r ∷ rs) = do u ← to_domain r; us ← to_domains rs; ok (u ∷ us)

module _ (table : Table UserRow UserColumn user_cell) where
  open table use {Store, find, rows, insert}

  with_hash : Option UserRow → Outcome Exn (Option (User × Text))
  unfolding to_domain
  with_hash none = ok none
  with_hash (some r) = do u ← to_domain r; ok (some (u, r.password_hash))

  unfoldable pub get_by_username : Text → Store → Outcome Exn (Option (User × Text))
  unfolding with_hash
  get_by_username username st = with_hash (find by_username username st)

  without_hash : Option UserRow → Outcome Exn (Option User)
  unfolding to_domain
  without_hash none = ok none
  without_hash (some r) = do u ← to_domain r; ok (some u)

  unfoldable pub get_by_id : Text → Store → Outcome Exn (Option User)
  unfolding without_hash
  get_by_id user_id st = without_hash (find by_id user_id st)

  unfoldable pub add : User → Text → Store → Outcome Exn Store
  unfolding new_row
  add u password_hash st = insert (new_row u password_hash) st

  unfoldable pub list_all : Store → Outcome Exn (List User)
  unfolding oldest_first to_domains
  list_all st = to_domains (oldest_first (rows st))
