-- ===== src/Auth/Subscribers.antt =====
-- services/auth/src/subscribers: what the auth service does with one message of the user service.
use micro_blog.Base.{
  ℕ, String, Text, string_eq, text_eq, ◌==◌, not, ◌&&◌, ◌||◌, Option, none, some, [], ◌∷◌, find,
  any, or_else, if◌then◌else◌, Exec, done, thrown, other_error,
}
use micro_blog.Sql.{update, delete}
use micro_blog.Auth.Service.{Credential, AuthDb}

-- `if (username)`, `if (email)`, `if (role)`: absent and empty are both falsy.
abbrev pub given : Option Text → Option Text
given none = none
given (some []) = none
given (some (c ∷ s)) = some (c ∷ s)

abbrev pub given_role : Option String → Option String
given_role none = none
given_role (some role) = if role == "" then none else some role

-- The row with the `updates` put in.
abbrev pub synced :
    (now : ℕ) (username email : Option Text) (role : Option String) → Credential → Credential
synced now username email role c = record c {
  username = or_else (given username) c.username;
  email = or_else (given email) c.email;
  role = or_else (given_role role) c.role;
  updated_at = now;
}

-- UPDATE credentials SET … WHERE id, refused where another row has the new name or address (UNIQUE).
unfoldable pub update_credential : String → Option Credential → Exec AuthDb (Unit {0})
update_credential id none s = done tt s
update_credential id (some row) s =
    if any (λ d. not (d.id == id) && (d.email == row.email || d.username == row.username))
      s.credentials
    then thrown other_error s
    else done tt (record s { credentials = update (λ c. c.id == id) (λ c. row) s.credentials })

abbrev pub synced_of :
    (now : ℕ) (username email : Option Text) (role : Option String)
    → Option Credential
    → Option Credential
synced_of now username email role none = none
synced_of now username email role (some c) = some (synced now username email role c)

-- `done` is answered by `ack`, `thrown` by `nak`.
unfoldable pub on_user_updated :
    (now : ℕ) (user_id : String) (username email : Option Text) (role : Option String)
    → Exec AuthDb (Unit {0})
unfolding update_credential
on_user_updated now user_id username email role s =
    update_credential user_id
      (synced_of now username email role (find (λ c. c.id == user_id) s.credentials)) s

-- The sessions go with the credential (ON DELETE CASCADE).
unfoldable pub on_user_deleted : String → AuthDb → AuthDb
on_user_deleted user_id s = record s {
  credentials = delete (λ c. c.id == user_id) s.credentials;
  refresh_tokens = delete (λ t. t.user_id == user_id) s.refresh_tokens;
}
