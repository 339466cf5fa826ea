-- ===== src/Users.antt =====
-- src/module/users: the repository and the service of the accounts.
pub mod Queries
use lexi_ledger_backend.Base.{
  ℕ, String, Bool, true, Option, none, some, List, ◌==◌, if◌then◌else◌, str_eq, map,
}
use lexi_ledger_backend.Schema.{User, Role}
use lexi_ledger_backend.Platform.{
  World, Action, pure, gets, throw, modify, ◌>>=◌, ◌>>◌, not_found, prisma, p2002, p2025, Env, now,
  new_id,
}

-- What a client sees of a user: the row without `passwordHash`.
pub record SafeUser : Type 0 where
  pub id : ℕ
  pub name : String
  pub email : String
  pub role : Role
  pub email_verified_at : Option ℕ

abbrev pub to_safe_user : User → SafeUser
to_safe_user u = record {
  id = u.id;
  name = u.name;
  email = u.email;
  role = u.role;
  email_verified_at = u.email_verified_at;
}

-- `CreateUserInput`
pub record CreateUserInput : Type 0 where
  pub name : String
  pub email : String
  pub password_hash : String

-- The unique columns are `id` and `email`.
abbrev pub clash : User → User → Bool
clash a b = if a.id == b.id then true else str_eq b.email a.email

-- The row that `createUser` writes: an ordinary user with an email that is not verified.
abbrev pub new_row : ℕ → CreateUserInput → User
new_row id input = record {
  id = id;
  name = input.name;
  email = input.email;
  password_hash = input.password_hash;
  role = Role.user;
  email_verified_at = none;
}

module _ (env : Env) where
  -- The repository.
  abbrev pub store_updated : Option (User × List User) → Action User
  store_updated none = throw (prisma p2025)
  store_updated (some (u, rows)) = modify (λ w. record w { users = rows }) >> pure u

  -- `prisma.user.update({ where: { id }, data })`
  unfoldable pub update_user : ℕ → (User → User) → Action User
  update_user id change = do
    rows ← gets (λ w. w.users)
    store_updated (env.db.update (λ u. u.id == id) change rows)

  abbrev pub with_password : String → User → User
  with_password password_hash u = record u { password_hash = password_hash }

  abbrev pub verified_at : ℕ → User → User
  verified_at t u = record u { email_verified_at = some t }

  abbrev pub store_created : User → Option (List User) → Action User
  store_created u none = throw (prisma p2002)
  store_created u (some rows) = modify (λ w. record w { users = rows }) >> pure u

  unfoldable pub create : CreateUserInput → Action User
  create input = do
    id ← new_id env
    rows ← gets (λ w. w.users)
    store_created (new_row id input) (env.db.create clash (new_row id input) rows)

  unfoldable pub find_by_email : String → Action (Option User)
  find_by_email email = gets (λ w. env.db.find_first (λ u. str_eq u.email email) w.users)

  unfoldable pub find_by_id : ℕ → Action (Option User)
  find_by_id id = gets (λ w. env.db.find_first (λ u. u.id == id) w.users)

  -- The service.
  unfoldable pub mark_email_as_verified : ℕ → Action User
  mark_email_as_verified id = do t ← now env; update_user id (verified_at t)

  pub update_password : ℕ → String → Action User
  update_password id password_hash = update_user id (with_password password_hash)

  unfoldable pub update_name : ℕ → String → Action SafeUser
  update_name id name = do
    user ← update_user id (λ u. record u { name = name })
    pure (to_safe_user user)

  abbrev pub safe_or_not_found : Option User → Action SafeUser
  safe_or_not_found none = throw (not_found "User not found")
  safe_or_not_found (some user) = pure (to_safe_user user)

  unfoldable pub get_me : ℕ → Action SafeUser
  get_me id = do user ← find_by_id id; safe_or_not_found user
