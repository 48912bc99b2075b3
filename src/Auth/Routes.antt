-- ===== src/Auth/Routes.antt =====
-- services/auth/src/routes/auth.ts. A body arrives as the schema passes it on, and as `none` where the
-- schema refuses it.
use micro_blog.Base.{ℕ, ◌/◌, String, Text, Bool, Option, Exec, done, thrown, return, ◌>>=◌, ◌>>◌}
use micro_blog.Shared.Errors.{Reply, sent}
use micro_blog.Shared.Requests.{parsed, signed_in}
use micro_blog.Auth.Service.{
  AuthDb, Primitives, Account, Session, Renewal, register, login, refresh, change_password,
}
use micro_blog.Auth.Captcha.{Payload, UsedJtis, verify_captcha_token}

-- The database with `usedCaptchaJtis`
pub record AuthApp : Type 0 where
  pub db : AuthDb
  pub used : UsedJtis

pub record Registration : Type 0 where
  pub username : Text
  pub email : Text
  pub password : Text

pub record Credentials : Type 0 where
  pub email : Text
  pub password : Text

pub record PasswordChange : Type 0 where
  pub current_password : Text
  pub new_password : Text

-- A step on one part of the state.
abbrev pub on_db : {A : Type 0} → Exec AuthDb A → Exec AuthApp A
on_db action s = elim (action s.db) [
  | done a db ↦ done a (record s { db = db })
  | thrown e db ↦ thrown e (record s { db = db })
]

abbrev pub on_used : {A : Type 0} → Exec UsedJtis A → Exec AuthApp A
on_used action s = elim (action s.used) [
  | done a used ↦ done a (record s { used = used })
  | thrown e used ↦ thrown e (record s { used = used })
]

-- `now` is in milliseconds.
module _ (prim : Primitives) (now : ℕ) where
  -- POST /auth/register
  unfoldable pub post_register :
      (decode : String → Option Payload) (configured : Bool) (captcha_token : Option String)
      → Option Registration
      → Exec AuthApp (Reply Account)
  unfolding parsed
  post_register decode configured captcha_token body = do
    on_used (verify_captcha_token decode configured (now / 1000) captcha_token)
    b ← parsed body
    user ← on_db (register prim now b.username b.email b.password)
    return (sent 201 user)

  -- POST /auth/login
  unfoldable pub post_login : Option Credentials → Exec AuthApp (Reply Session)
  unfolding parsed
  post_login body = do
    b ← parsed body
    result ← on_db (login prim now b.email b.password)
    return (sent 200 result)

  -- POST /auth/refresh
  unfoldable pub post_refresh : (refresh_token : Option String) → Exec AuthApp (Reply Renewal)
  unfolding parsed
  post_refresh refresh_token = do
    raw ← parsed refresh_token
    result ← on_db (refresh prim now raw)
    return (sent 200 result)

  -- PUT /auth/password
  unfoldable pub put_password :
      (user_id : Option String) → Option PasswordChange → Exec AuthApp (Reply String)
  unfolding parsed
  put_password user_id body = signed_in "Unauthorized" user_id λ user_id. do
    b ← parsed body
    on_db (change_password prim now user_id b.current_password b.new_password)
    return (sent 200 "Password changed successfully")
