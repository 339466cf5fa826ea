-- ===== src/Users/Queries.antt =====
-- What each call of the repository of src/module/users does to the world.
use mathlib.Core.Option
use lexi_ledger_backend.Base.{
  none, List, ==_refl, ℕ, ◌+◌, String, ◌≡◌, refl, ◌∙◌, ap, true, false, Option, none, some, List,
  [], ◌∷◌, ◌++◌, map, arith, ◌==◌, str_eq, find?, find?-map, find?-holds, ==_refl, any, patch,
}
use lexi_ledger_backend.Schema.{User}
use lexi_ledger_backend.Platform.{World, ok, err, prisma, p2002, Env}
use lexi_ledger_backend.Users.{
  CreateUserInput, clash, new_row, with_password, update_user, update_password,
  mark_email_as_verified, verified_at, find_by_email, find_by_id, create,
}

-- The user with an id, and the user with an email.
abbrev pub stored : ℕ → World → Option User
stored id w = find? (λ u. u.id == id) w.users

abbrev pub stored_by_email : String → World → Option User
stored_by_email email w = find? (λ u. str_eq u.email email) w.users

-- The world after a change of a user.
abbrev pub changed : ℕ → (User → User) → World → World
changed id change w = record w { users = map (patch (λ u. u.id == id) change) w.users }

pub stored-changed :
    (id : ℕ) (change : User → User) (w : World) {u : User}
    → ((x : User) → (change x).id ≡ x.id)
    → stored id w ≡ some u
    → stored id (changed id change w) ≡ some (change u)
stored-changed id change w h found =
    find?-map (λ x. x.id == id) (patch (λ x. x.id == id) change) w.users (λ x. ground (arith, h x))
    ∙ ap (Option.map (patch (λ x. x.id == id) change)) found
    ∙ ground (arith, find?-holds (λ x. x.id == id) w.users found)

pub by_email-changed :
    (id : ℕ) (email : String) (change : User → User) (w : World) {u : User}
    → ((x : User) → (change x).email ≡ x.email)
    → stored_by_email email w ≡ some u
    → u.id ≡ id
    → stored_by_email email (changed id change w) ≡ some (change u)
by_email-changed id email change w h found own =
    find?-map (λ x. str_eq x.email email) (patch (λ x. x.id == id) change) w.users
      (λ x. ground (arith, h x))
    ∙ ap (Option.map (patch (λ x. x.id == id) change)) found
    ∙ ground (arith, own, ==_refl id)

-- No row has the id of a new user.
pub id_is_free :
    (new : User) (rows : List User)
    → any (clash new) rows ≡ false
    → find? (λ u. u.id == new.id) rows ≡ none
id_is_free new [] h = refl
id_is_free new (x ∷ rows) h = ground (arith, id_is_free new rows)

module _ (env : Env) where
  pub find_by_email_lem :
      (email : String) (w : World) → find_by_email env email w ≡ (ok (stored_by_email email w), w)
  unfolding find_by_email
  find_by_email_lem email w = rw env.db.find_first_law

  pub find_by_id_lem : (id : ℕ) (w : World) → find_by_id env id w ≡ (ok (stored id w), w)
  unfolding find_by_id
  find_by_id_lem id w = rw env.db.find_first_law

  pub update_password_lem :
      (id : ℕ) (password_hash : String) (w : World) {u : User}
      → stored id w ≡ some u
      → update_password env id password_hash w
        ≡ (ok (with_password env password_hash u), changed id (with_password env password_hash) w)
  unfolding update_password update_user
  update_password_lem id password_hash w found =
      ground (
        arith,
        env.db.update_law (λ u. u.id == id) (with_password env password_hash) w.users,
        found,
      )

  pub mark_verified_lem :
      (id : ℕ) (w : World) {u : User}
      → stored id w ≡ some u
      → mark_email_as_verified env id w ≡ (
        ok (verified_at env (env.clock w.reads) u),
        changed id (verified_at env (env.clock w.reads)) (record w { reads = w.reads + 1 }),
      )
  unfolding mark_email_as_verified update_user
  mark_verified_lem id w found = ground (
    arith,
    env.db.update_law (λ u. u.id == id) (verified_at env (env.clock w.reads)) w.users,
    found,
  )

  -- The row and the world of a new user.
  abbrev pub new_user : CreateUserInput → World → User
  new_user input w = new_row (env.uuid w.ids) input

  abbrev pub after_create : CreateUserInput → World → World
  after_create input w = record w { users = w.users ++ new_user input w ∷ []; ids = w.ids + 1 }

  pub create_lem :
      (input : CreateUserInput) (w : World)
      → any (clash (new_user input w)) w.users ≡ false
      → create env input w ≡ (ok (new_user input w), after_create input w)
  unfolding create
  create_lem input w h = ground (arith, env.db.create_law clash (new_user input w) w.users)

  pub create_clash :
      (input : CreateUserInput) (w : World)
      → any (clash (new_user input w)) w.users ≡ true
      → create env input w ≡ (err (prisma p2002), record w { ids = w.ids + 1 })
  unfolding create
  create_clash input w h = ground (arith, env.db.create_law clash (new_user input w) w.users)
