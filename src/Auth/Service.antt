-- ===== src/Auth/Service.antt =====
-- The tables of services/auth/src/db/schema.ts, the operations of services/auth/src/services/auth.ts, and
-- the subscribers of services/auth/src/subscribers.
use micro_blog.Base.{
  ℕ, ◌+◌, String, Text, string_eq, text_eq, ◌==◌, Bool, true, not, ◌&&◌, ◌||◌, Option, none, some,
  List, [], find, any, ltb, if◌then◌else◌, Exec, done, thrown, Failure, other_error, return,
  require, modify, gets, ◌>>=◌, ◌>>◌,
}
use micro_blog.Sql.{insert, update, delete}
use micro_blog.Shared.Errors.{not_found, unauthorized, conflict}
use micro_blog.Shared.Events.{Event, Bus, user_created, send}

pub record Credential : Type 0 where
  pub id : String
  pub email : Text
  pub username : Text
  pub role : String
  pub password_hash : Text
  pub active : Bool
  pub created_at : ℕ
  pub updated_at : ℕ

pub record RefreshToken : Type 0 where
  pub id : String
  pub user_id : String
  pub token : String
  pub expires_at : ℕ
  pub created_at : ℕ

-- The database, the connection to the bus, and how many identifiers, refresh tokens and salts were
-- drawn.
pub record AuthDb : Type 0 where
  pub credentials : List Credential
  pub refresh_tokens : List RefreshToken
  pub bus : Bus
  pub drawn : ℕ

-- PRIMARY KEY (id), UNIQUE (email), UNIQUE (username)
abbrev pub credential_clash : Credential → Credential → Bool
credential_clash c d = c.id == d.id || c.email == d.email || c.username == d.username

-- PRIMARY KEY (id), UNIQUE (token_hash)
abbrev pub token_clash : RefreshToken → RefreshToken → Bool
token_clash t u = t.id == u.id || t.token == u.token

unfoldable pub publish : Event → Exec AuthDb (Unit {0})
publish = send (λ s. s.bus) (λ b s. record s { bus = b })

-- The claims that `signJwt` is given.
pub record Claims : Type 0 where
  pub sub : String
  pub username : Text
  pub role : String

abbrev pub claims_of : Credential → Claims
claims_of c = record { sub = c.id; username = c.username; role = c.role }

-- `{ id, username, email, role }`
pub record Account : Type 0 where
  pub id : String
  pub username : Text
  pub email : Text
  pub role : String

abbrev pub account_of : Credential → Account
account_of c = record { id = c.id; username = c.username; email = c.email; role = c.role }

pub record Session : Type 0 where
  pub access_token : Text
  pub refresh_token : String
  pub user : Account

pub record Renewal : Type 0 where
  pub access_token : Text
  pub refresh_token : String

-- `throw e` where there is nothing, or where what there is fails the test.
unfoldable pub demand : {A : Type 0} → Option A → (A → Bool) → Failure → Exec AuthDb A
demand none ok e s = thrown e s
demand (some a) ok e s = if ok a then done a s else thrown e s

-- `.returning()` after an INSERT
unfoldable pub insert_credential : Credential → Exec AuthDb Credential
insert_credential row s = elim (insert credential_clash row s.credentials) [
  | none ↦ thrown other_error s
  | some rows ↦ done row (record s { credentials = rows; drawn = s.drawn + 1 })
]

-- Refused where there is no such user (REFERENCES credentials).
unfoldable pub insert_token : RefreshToken → Exec AuthDb (Unit {0})
insert_token row s =
    if any (λ c. c.id == row.user_id) s.credentials
    then elim (insert token_clash row s.refresh_tokens) [
      | none ↦ thrown other_error s
      | some rows ↦ done tt (record s { refresh_tokens = rows; drawn = s.drawn + 1 })
    ]
    else thrown other_error s

-- The identifiers of the database and the refresh tokens of `crypto.randomUUID`; `bcrypt.hash`, with the
-- salt that it draws as its first argument, and `bcrypt.compare`; the digest of `hashRefreshToken`;
-- `signJwt`, with the time; and how long a refresh token lasts.
pub record Primitives : Type 0 where
  pub uuid : ℕ → String
  pub secret : ℕ → String
  pub hash : ℕ → Text → Text
  pub compare : Text → Text → Bool
  pub hmac : String → String
  pub sign : ℕ → Claims → Text
  pub lifetime : ℕ

module _ (prim : Primitives) (now : ℕ) where
  abbrev pub new_credential : (username email password : Text) (role : String) → ℕ → Credential
  new_credential username email password role drawn = record {
    id = prim.uuid drawn;
    email = email;
    username = username;
    role = role;
    password_hash = prim.hash drawn password;
    active = true;
    created_at = now;
    updated_at = now;
  }

  abbrev pub created : Credential → Event
  created c = user_created c.id c.username c.email c.role

  unfoldable pub register : (username email password : Text) → Exec AuthDb Account
  register username email password = do
    taken ← gets (λ s. any (λ c. c.email == email || c.username == username) s.credentials)
    require (not taken) (conflict "User with this email or username already exists")
    drawn ← gets (λ s. s.drawn)
    cred ← insert_credential (new_credential username email password "user" drawn)
    publish (created cred)
    return (account_of cred)

  abbrev pub new_token : String → ℕ → RefreshToken
  new_token user_id drawn = record {
    id = prim.uuid drawn;
    user_id = user_id;
    token = prim.hmac (prim.secret drawn);
    expires_at = now + prim.lifetime;
    created_at = now;
  }

  -- The end of `login` and of `refresh`: the new refresh token, which is stored as its hash.
  unfoldable pub issue_token : String → Exec AuthDb String
  issue_token user_id = do
    drawn ← gets (λ s. s.drawn)
    insert_token (new_token user_id drawn)
    return (prim.secret drawn)

  unfoldable pub login : (email password : Text) → Exec AuthDb Session
  unfolding issue_token
  login email password = do
    row ← gets (λ s. find (λ c. c.email == email) s.credentials)
    cred ← demand row (λ c. c.active) (unauthorized "Invalid credentials")
    require (prim.compare password cred.password_hash) (unauthorized "Invalid credentials")
    refresh_token ← issue_token cred.id
    return (record {
      access_token = prim.sign now (claims_of cred);
      refresh_token = refresh_token;
      user = account_of cred;
    })

  -- `eq(tokens.token, hash)` and `gt(tokens.expires_at, new Date())`
  abbrev pub is_valid_token : String → RefreshToken → Bool
  is_valid_token raw t = t.token == prim.hmac raw && ltb now t.expires_at

  unfoldable pub refresh : (raw : String) → Exec AuthDb Renewal
  unfolding issue_token
  refresh raw = do
    found ← gets (λ s. find (is_valid_token raw) s.refresh_tokens)
    row ← demand found (λ t. true) (unauthorized "Invalid or expired refresh token")
    user ← gets (λ s. find (λ c. c.id == row.user_id) s.credentials)
    cred ← demand user (λ c. c.active) (unauthorized "User not found or inactive")
    modify (λ s. record s { refresh_tokens = delete (λ t. t.id == row.id) s.refresh_tokens })
    refresh_token ← issue_token cred.id
    return (record { access_token = prim.sign now (claims_of cred); refresh_token = refresh_token })

  abbrev pub with_password : String → Text → AuthDb → AuthDb
  with_password user_id password s = record s {
    credentials =
        update (λ c. c.id == user_id)
          (λ c. record c { password_hash = prim.hash s.drawn password; updated_at = now })
          s.credentials;
    drawn = s.drawn + 1;
  }

  abbrev pub without_sessions : String → AuthDb → AuthDb
  without_sessions user_id s = record s {
    refresh_tokens = delete (λ t. t.user_id == user_id) s.refresh_tokens;
  }

  unfoldable pub change_password :
      (user_id : String) (current_password new_password : Text) → Exec AuthDb (Unit {0})
  change_password user_id current_password new_password = do
    row ← gets (λ s. find (λ c. c.id == user_id) s.credentials)
    cred ← demand row (λ c. true) (not_found "User not found")
    require (prim.compare current_password cred.password_hash)
        (unauthorized "Current password is incorrect")
    modify (with_password user_id new_password)
    modify (without_sessions user_id)

  abbrev pub with_admin : String → AuthDb → AuthDb
  with_admin id s = record s {
    credentials =
        update (λ c. c.id == id) (λ c. record c { role = "admin"; updated_at = now }) s.credentials;
  }

  unfoldable pub create_admin : (username email password : Text) → Exec AuthDb (Unit {0})
  create_admin username email password = do
    drawn ← gets (λ s. s.drawn)
    cred ← insert_credential (new_credential username email password "admin" drawn)
    publish (created cred)

  unfoldable pub promote_admin : Credential → Exec AuthDb (Unit {0})
  promote_admin existing =
      if existing.role == "admin" then return tt else modify (with_admin existing.id)

  -- `existing` of `bootstrapAdmin`, and what is done with it.
  unfoldable pub seed_admin :
      (username email password : Text) → Option Credential → Exec AuthDb (Unit {0})
  unfolding create_admin promote_admin
  seed_admin username email password none = create_admin username email password
  seed_admin username email password (some existing) = promote_admin existing

  -- The three settings; an address or a password that is empty counts as not set.
  unfoldable pub bootstrap_admin : (username email password : Text) → Exec AuthDb (Unit {0})
  unfolding seed_admin
  bootstrap_admin username email password = if email == [] || password == [] then return tt else do
    existing ← gets (λ s. find (λ c. c.email == email) s.credentials)
    seed_admin username email password existing
