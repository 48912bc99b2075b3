-- ===== src/User/Service.antt =====
-- The table of services/user/src/db/schema.ts, the operations of services/user/src/services/user.ts, and
-- the subscriber of services/user/src/subscribers/user-created.ts.
use micro_blog.Base.{
  ℕ, String, Text, string_eq, text_eq, ◌==◌, Bool, true, not, ◌&&◌, ◌||◌, Option, none, some, List,
  [], find, any, length, or_else, if◌then◌else◌, Exec, done, thrown, other_error, return, modify,
  ◌>>=◌, ◌>>◌,
}
use micro_blog.Sql.{insert, update, delete, order_desc, page_of}
use micro_blog.Shared.Errors.{not_found}
use micro_blog.Shared.Events.{Event, Bus, user_updated, user_deleted, send}

pub record User : Type 0 where
  pub id : String
  pub username : Text
  pub email : Text
  pub bio : Option Text
  pub role : String
  pub active : Bool
  pub created_at : ℕ
  pub updated_at : ℕ

-- The database and the connection to the bus. The identifiers come from the auth service. `is_uuid` tells
-- which texts PostgreSQL takes for a value of a column of type `uuid`.
pub record UserDb : Type 0 where
  pub users : List User
  pub bus : Bus
  pub is_uuid : String → Bool

-- PRIMARY KEY (id), UNIQUE (username), UNIQUE (email)
abbrev pub user_clash : User → User → Bool
user_clash u v = u.id == v.id || u.username == v.username || u.email == v.email

unfoldable pub publish : Event → Exec UserDb (Unit {0})
publish = send (λ s. s.bus) (λ b s. record s { bus = b })

-- The columns that `updateUser` and `updateUserRole` return; `active` is not among them.
pub record UserView : Type 0 where
  pub id : String
  pub username : Text
  pub email : Text
  pub bio : Option Text
  pub role : String
  pub created_at : ℕ
  pub updated_at : ℕ

abbrev pub view_of : User → UserView
view_of u = record {
  id = u.id;
  username = u.username;
  email = u.email;
  bio = u.bio;
  role = u.role;
  created_at = u.created_at;
  updated_at = u.updated_at;
}

pub record UserPage : Type 0 where
  pub users : List User
  pub total : ℕ
  pub page : ℕ
  pub limit : ℕ

unfoldable pub list_users : (page limit : ℕ) → UserDb → UserPage
list_users page limit s = record {
  users = page_of page limit (order_desc (λ u. u.created_at) s.users);
  total = length s.users;
  page = page;
  limit = limit;
}

-- `findFirst` by the identifier, and `if (!existing) throw new NotFoundError('User')`. No row has an identifier
-- that is no UUID, but PostgreSQL refuses to look for it.
unfoldable pub find_user : String → Exec UserDb User
find_user id s = elim (find (λ u. u.id == id) s.users) [
  | none ↦ thrown (if s.is_uuid id then not_found "User" else other_error) s
  | some u ↦ done u s
]

unfoldable pub get_user_by_id : String → Exec UserDb User
unfolding find_user
get_user_by_id id = find_user id

-- UPDATE users SET … WHERE id, refused where another row has the new name or address (UNIQUE).
unfoldable pub update_row : String → User → Exec UserDb User
update_row id row s =
    if any (λ v. not (v.id == id) && (v.username == row.username || v.email == row.email)) s.users
    then thrown other_error s
    else done row (record s { users = update (λ u. u.id == id) (λ u. row) s.users })

-- `.onConflictDoNothing()`
unfoldable pub insert_unless : User → UserDb → UserDb
insert_unless row s = elim (insert user_clash row s.users) [
  | none ↦ s
  | some users ↦ record s { users = users }
]

-- The body of PUT /users/:id, as the schema passes it on.
pub record UpdateUser : Type 0 where
  pub username : Option Text
  pub email : Option Text
  pub bio : Option Text

module _ (now : ℕ) where
  -- `.set({ role, updated_at: new Date() })`
  abbrev pub with_role : String → User → User
  with_role role u = record u { role = role; updated_at = now }

  unfoldable pub update_user_role : (id role : String) → Exec UserDb UserView
  update_user_role id role = do
    existing ← find_user id
    updated ← update_row id (with_role role existing)
    publish (user_updated updated.id none none none (some updated.role))
    return (view_of updated)

  abbrev pub new_bio : Option Text → Option Text → Option Text
  new_bio none old = old
  new_bio (some bio) old = some bio

  -- `.set({ ...data, updated_at: new Date() })`: a field that is undefined is not set.
  abbrev pub with_data : UpdateUser → User → User
  with_data body u = record u {
    username = or_else body.username u.username;
    email = or_else body.email u.email;
    bio = new_bio body.bio u.bio;
    updated_at = now;
  }

  unfoldable pub update_user : String → UpdateUser → Exec UserDb UserView
  update_user id body = do
    existing ← find_user id
    updated ← update_row id (with_data body existing)
    publish (user_updated updated.id body.username body.email body.bio none)
    return (view_of updated)

  abbrev pub new_role : String → String
  new_role role = if role == "" then "user" else role

  abbrev pub profile : (user_id : String) (username email : Text) (role : String) → User
  profile user_id username email role = record {
    id = user_id;
    username = username;
    email = email;
    bio = some [];
    role = new_role role;
    active = true;
    created_at = now;
    updated_at = now;
  }

  -- What the subscriber does with one message, whose identifier is one that the auth service drew.
  unfoldable pub on_user_created :
      (user_id : String) (username email : Text) (role : String) → UserDb → UserDb
  unfolding insert_unless
  on_user_created user_id username email role = insert_unless (profile user_id username email role)

unfoldable pub delete_user : String → Exec UserDb (Unit {0})
delete_user id = do
  find_user id
  modify (λ s. record s { users = delete (λ u. u.id == id) s.users })
  publish (user_deleted id)
