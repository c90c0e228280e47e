-- ===== src/Accounts.antt =====
-- `AuthController` and `UsersController` of backend/src/auth.controller.ts.
pub mod SignIn
use ki_ticket.Base.{
  ℕ, String, Bool, true, false, not, ◌||◌, Option, none, some, List, ◌==◌, str_eq, if◌then◌else◌,
}
use ki_ticket.Outcome.{
  Exec, Result, ok, err, conflict, unauthorized, duplicate_key, entity_not_found, raise_if, require,
  pure, gets, ◌>>=◌, ◌>>◌,
}
use ki_ticket.Entities.{User, Role}
use ki_ticket.World.{Repositories, Db, AuthenticatedUser}
use ki_ticket.Json.{trim}

pub record Register : Type 0 where
  pub email : String
  pub name : String
  pub password : String

pub record Login : Type 0 where
  pub email : String
  pub password : String

-- What the handlers call: `toLowerCase` of JavaScript and `LOWER` of the database, `hash` and
-- `compare` of bcrypt, and the signature of the token library.
pub record Libraries : Type 0 where
  pub to_lower_case : String → String
  pub sql_lower : String → String
  pub hash : String → String
  pub compare : String → String → Bool
  pub sign : AuthenticatedUser → String

-- The user of an answer.
pub record UserSummary : Type 0 where
  pub id : ℕ
  pub email : String
  pub name : String
  pub role : Role

abbrev pub summary : User → UserSummary
summary u = record { id = u.id; email = u.email; name = u.name; role = u.role }

pub record Session : Type 0 where
  pub access_token : String
  pub expires_in : ℕ
  pub user : UserSummary

abbrev pub is_some : {A : Type 0} → Option A → Bool
is_some none = false
is_some (some a) = true

abbrev pub claims_of : User → AuthenticatedUser
claims_of u = record { sub = u.id; email = u.email; role = u.role }

module _ (D : Repositories) (lib : Libraries) where
  abbrev pub normal_email : String → String
  normal_email email = lib.to_lower_case (trim email)

  abbrev pub taken : String → Db D → Bool
  taken email db = is_some (D.users.find_one_by db.users (λ u. str_eq u.email email))

  -- `save` of a new user, whose unique violation the handler translates.
  abbrev pub insert_user : User → Exec (Db D) User
  insert_user u db = elim (D.users.insert db.users u) [
    | none ↦ (err (conflict "Email is already registered"), db)
    | some t ↦ (ok u, record db { users = t })
  ]

  -- `id` is the id that the database generates.
  abbrev pub new_user : ℕ → Register → User
  new_user id body = record {
    id = id;
    email = normal_email body.email;
    name = trim body.name;
    password_hash = lib.hash body.password;
    role = Role.customer;
  }

  unfoldable pub register : ℕ → Register → Exec (Db D) UserSummary
  register id body = do
    known ← gets (taken (normal_email body.email))
    raise_if known (conflict "Email is already registered")
    user ← insert_user (new_user id body)
    pure (summary user)

  -- The query by the lower-case form of the email.
  abbrev pub user_of_email : String → Db D → Option User
  user_of_email email db =
      D.users.find_one_by db.users (λ u. str_eq (lib.sql_lower u.email) (lib.sql_lower email))

  abbrev pub rejected : String → Option User → Bool
  rejected password none = true
  rejected password (some u) = not (lib.compare password u.password_hash)

  unfoldable pub login : Login → Exec (Db D) Session
  login body = do
    found ← gets (user_of_email (trim body.email))
    raise_if (rejected body.password found) (unauthorized "The email or the password is wrong")
    user ← require found (unauthorized "The email or the password is wrong")
    pure (record {
      access_token = lib.sign (claims_of user);
      expires_in = 3600;
      user = summary user;
    })

module _ (D : Repositories) where
  abbrev pub user_by_id : ℕ → Db D → Option User
  user_by_id id db = D.users.find_one_by db.users (λ u. u.id == id)

  -- `update(id, { role })`, which changes nothing if there is no such row.
  abbrev pub update_role : Role → Option User → Exec (Db D) (Unit {0})
  update_role role none db = (ok tt, db)
  update_role role (some u) db = elim (D.users.save db.users (record u { role = role })) [
    | none ↦ (err duplicate_key, db)
    | some t ↦ (ok tt, record db { users = t })
  ]

  unfoldable pub change_role : ℕ → Role → Exec (Db D) User
  change_role id role = do
    stored ← gets (user_by_id id)
    update_role role stored
    changed ← gets (user_by_id id)
    require changed entity_not_found

  -- `list`
  unfoldable pub list_users : Db D → List User
  list_users db = D.users.find_by db.users (λ u. true)
