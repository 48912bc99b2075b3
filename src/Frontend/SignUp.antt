-- ===== src/Frontend/SignUp.antt =====
-- services/frontend/src/pages/RegisterPage.tsx with the captcha service and the auth service behind it.
pub mod Replies
pub mod Registers
mod Tests
use micro_blog.Base.{
  ℕ, String, Text, codes, Bool, true, ◌&&◌, ◌||◌, not, Option, none, some, List, [], ◌∷◌, truthy,
  or_else, if◌then◌else◌,
}
use micro_blog.Shared.Errors.{Reply, sent, refused, no_content, respond}
use micro_blog.Captcha.Store.{CaptchaState}
use micro_blog.Captcha.Routes.{VerifyBody, get_challenge, post_verify}
use micro_blog.Auth.Service.{Primitives, Account}
use micro_blog.Auth.Captcha.{Payload}
use micro_blog.Auth.Routes.{AuthApp, post_register}
use micro_blog.Schemas.{Object, text, is_between, register_schema}
use micro_blog.Frontend.Fields.{trim, is_blank}

pub record SignUpForm : Type 0 where
  pub username : Text
  pub email : Text
  pub password : Text
  pub captcha_id : Option String
  pub captcha_answer : Text
  pub error : Text
  pub at_login : Bool

-- The two services that the page talks to.
pub record Site : Type 0 where
  pub captcha : CaptchaState
  pub auth : AuthApp

-- What `authApi.register` sends.
abbrev pub registration_body : SignUpForm → Object
registration_body form =
    ("username", text form.username)
    ∷ ("email", text form.email)
    ∷ ("password", text form.password)
    ∷ []

-- `verifySchema`, where `is_uuid` stands for the pattern of `z.string().uuid()`.
abbrev pub verify_schema :
    (is_uuid : String → Bool) → (id : String) (answer : Text) → Option VerifyBody
verify_schema is_uuid id answer =
    if is_uuid id && is_between 1 10 answer
    then some (record { id = id; answer = answer })
    else none

module _ (uuid : ℕ → String) (unicode : ℕ → Text) (utf8 : Text → List ℕ) (sign : String → String)
    (ttl : ℕ) (prim : Primitives) (decode : String → Option Payload) (is_email : Text → Bool)
    (is_uuid : String → Bool) (now : ℕ) (pick : ℕ → ℕ) where
  abbrev pub with_captcha : Reply String → SignUpForm → SignUpForm
  with_captcha (sent code id) form = record form { captcha_id = some id; captcha_answer = [] }
  with_captcha (refused code message) form = form
  with_captcha no_content form = form

  -- `loadCaptcha`
  unfoldable pub load_captcha : SignUpForm → Site → SignUpForm × Site
  load_captcha form s =
      let (reply, captcha) = get_challenge uuid unicode utf8 sign ttl now pick s.captcha in
      (with_captcha reply form, record s { captcha = captcha })

  -- The `catch` of `handleSubmit`.
  abbrev pub give_up : Text → SignUpForm → Site → SignUpForm × Site
  give_up message form s = load_captcha (record form { error = message }) s

  -- After the answer of the auth service. A route sends its own body with a status of success only.
  abbrev pub after_register : Reply Account → SignUpForm → Site → SignUpForm × Site
  after_register (sent code account) form s = (record form { at_login = true }, s)
  after_register (refused code message) form s = give_up (codes message) form s
  after_register no_content form s = (record form { at_login = true }, s)

  -- After the answer of the captcha service.
  abbrev pub after_verify : Reply String → SignUpForm → Site → SignUpForm × Site
  after_verify (sent code token) form s =
      let (reply, auth) = respond (
        post_register prim now decode true (some token)
          (register_schema is_email (registration_body form)) s.auth) in
      after_register reply form (record s { auth = auth })
  after_verify (refused code message) form s = give_up (codes message) form s
  after_verify no_content form s = give_up [] form s

  -- `handleSubmit`
  unfoldable pub handle_submit : SignUpForm → Site → SignUpForm × Site
  unfolding load_captcha
  handle_submit form s =
      if not (truthy form.captcha_id) || is_blank (trim form.captcha_answer)
      then (record form { error = codes "Please complete the captcha" }, s)
      else (let (reply, captcha) =
            post_verify uuid unicode utf8 sign ttl now
              (verify_schema is_uuid (or_else form.captcha_id "") (trim form.captcha_answer))
              s.captcha in
          after_verify reply (record form { error = [] }) (record s { captcha = captcha }))
