-- ===== src/Frontend/SignUp/Registers.antt =====
-- services/frontend/src/pages/RegisterPage.tsx: what a sign-up that ends at the login page has done.
use micro_blog.Base.{
  All, ◌++◌, ◌≡◌, refl, ap, ◌∙◌, inl, inr, ℕ, ◌≤◌, String, Text, Bool, true, false, not, ◌||◌,
  Option, none, some, List, [], truthy, or_else, Bool-cases, Run, done, thrown, app_error,
  zod_error, other_error,
}
use micro_blog.Shared.Errors.{Reply, sent, refused, no_content, respond}
use micro_blog.Captcha.Store.{StoredChallenge, CaptchaState, get, zeros}
use micro_blog.Captcha.Padding.{NonZero}
use micro_blog.Post.Slug.{to_lower_case}
use micro_blog.Captcha.Routes.{VerifyBody, get_challenge, post_verify}
use micro_blog.Auth.Service.{AuthDb, Primitives, Account, Session, register, login}
use micro_blog.Auth.Captcha.{Payload}
use micro_blog.Auth.Invariant.{IsWellFormed}
use micro_blog.Auth.RoundTrips.{register-login}
use micro_blog.Auth.Routes.{AuthApp, post_register}
use micro_blog.Schemas.{register_schema}
use micro_blog.Frontend.Fields.{trim, is_blank}
use micro_blog.Frontend.SignUp.{
  SignUpForm, Site, registration_body, verify_schema, load_captcha, after_register, after_verify,
  handle_submit,
}
use micro_blog.Frontend.SignUp.Replies.{
  post_register-eq-done, register_schema-eq-some, post_verify-eq-sent, post_verify-some,
  verify_schema-fields,
}

-- What a sign-up with the challenge `id` has done, when the user logs in at a time `later`.
pub record IsSignedUp (unicode : ℕ → Text) (utf8 : Text → List ℕ) (prim : Primitives)
    (now later : ℕ) (form : SignUpForm) (s t : Site) : Type 0 where
  pub challenge : StoredChallenge
  pub asked : get (or_else form.captcha_id "") s.captcha.store ≡ some challenge
  pub in_time : now ≤ challenge.expires_at
  pub right :
      (k : ℕ) × (utf8 (to_lower_case unicode (trim form.captcha_answer))
        ≡ utf8 challenge.answer ++ zeros k)
  pub spent : get (or_else form.captcha_id "") t.captcha.store ≡ none
  pub account : Account
  pub registered :
      register prim now form.username form.email form.password s.auth.db ≡ done account t.auth.db
  pub session : Session
  pub after : AuthDb
  pub opened : login prim later form.email form.password t.auth.db ≡ done session after
  pub same : session.user ≡ account

module _ (uuid : ℕ → String) (unicode : ℕ → Text) (utf8 : Text → List ℕ) (sign : String → String)
    (ttl : ℕ) (prim : Primitives) (decode : String → Option Payload) (is_email : Text → Bool)
    (is_uuid : String → Bool) (now : ℕ) (pick : ℕ → ℕ) where
  abbrev ended : SignUpForm → Site → Run AuthApp (Reply Account) → SignUpForm × Site
  ended form s o =
      let (reply, auth) = respond o in
      after_register uuid unicode utf8 sign ttl prim decode is_email is_uuid now pick reply form
        (record s { auth = auth })

  ended-at_login :
      (form : SignUpForm) (s : Site) (o : Run AuthApp (Reply Account))
      → form.at_login ≡ false
      → (ended form s o).0.at_login ≡ true
      → (r : Reply Account) × (t : AuthApp) × (o ≡ done r t)
        × ((ended form s o).1 ≡ record s { auth = t })
  unfolding load_captcha get_challenge
  ended-at_login form s (done (sent code a) t) new h = (_, t, refl, refl)
  ended-at_login form s (done (refused code m) t) new h = cc
  ended-at_login form s (done no_content t) new h = (_, t, refl, refl)
  ended-at_login form s (thrown (app_error code m) t) new h = cc
  ended-at_login form s (thrown zod_error t) new h = cc
  ended-at_login form s (thrown other_error t) new h = cc

  -- From the answer of the captcha service on.
  after_verify-at_login :
      (form : SignUpForm) (s : Site) (reply : Reply String)
      → form.at_login ≡ false
      → (after_verify uuid unicode utf8 sign ttl prim decode is_email is_uuid now pick reply form
          s).0.at_login
        ≡ true
      → (code : ℕ) × (token : String) × (a : Account) × (reply ≡ sent code token)
        × ((after_verify uuid unicode utf8 sign ttl prim decode is_email is_uuid now pick reply form
              s).1.captcha
            ≡ s.captcha)
        × (register prim now form.username form.email form.password s.auth.db
            ≡ done a
                (after_verify uuid unicode utf8 sign ttl prim decode is_email is_uuid now pick reply
                  form s).1.auth.db)
  unfolding load_captcha get_challenge
  after_verify-at_login form s (refused code m) new h = cc
  after_verify-at_login form s no_content new h = cc
  after_verify-at_login form s (sent code token) new h =
      let o =
        post_register prim now decode true (some token)
          (register_schema is_email (registration_body form)) s.auth in
      let (r, t, e, ends) = ended-at_login form s o new h in
      let (b, a, is, answer, made) =
        post_register-eq-done prim now decode true (some token) _ s.auth t e in
      let same = register_schema-eq-some is_email form b is in
      let made' : register prim now form.username form.email form.password s.auth.db ≡ done a t.db =
        rw (← same) at made in
      (code, token, a, refl, ap (λ (s : Site). s.captcha) ends, rw ends made')

  -- A sign-up that takes a new user to the login page was made with the right answer, up to case, space at its
  -- ends and zero bytes after it, to a challenge of the captcha service that had not expired and that is gone now,
  -- and has registered the account with the name, the address and the password of the form: whoever logs in
  -- with the address and the password, at whatever time, gets a session of that account. The state is well formed,
  -- no byte of the stored answer is zero, identifiers and digests never repeat, and a password fits its own hash.
  pub handle_submit-IsSignedUp :
      (fresh_id : (j k : ℕ) → prim.uuid j ≡ prim.uuid k → j ≡ k)
      (fresh_token : (j k : ℕ) → prim.hmac (prim.secret j) ≡ prim.hmac (prim.secret k) → j ≡ k)
      (compared : (n : ℕ) (p : Text) → prim.compare p (prim.hash n p) ≡ true) (later : ℕ)
      (form : SignUpForm) (s : Site)
      → IsWellFormed prim s.auth.db
      → ((c : StoredChallenge)
          → get (or_else form.captcha_id "") s.captcha.store ≡ some c
          → All NonZero (utf8 c.answer))
      → form.at_login ≡ false
      → (handle_submit uuid unicode utf8 sign ttl prim decode is_email is_uuid now pick form
          s).0.at_login
        ≡ true
      → IsSignedUp unicode utf8 prim now later form s
          (handle_submit uuid unicode utf8 sign ttl prim decode is_email is_uuid now pick form s).1
  unfolding handle_submit
  handle_submit-IsSignedUp fresh_id fresh_token compared later form s well whole new h =
      elim (Bool-cases (not (truthy form.captcha_id) || is_blank (trim form.captcha_answer))) [
        | inl y ↦ cc (rw (y, handle_submit) at h)
        | inr n ↦
            rw (n, handle_submit)
              (after_check
                (verify_schema is_uuid (or_else form.captcha_id "") (trim form.captcha_answer)) refl
                (rw (n, handle_submit) at h))
      ]
    where
      form' : SignUpForm
      form' = record form { error = [] }

      verified : Option VerifyBody → SignUpForm × Site
      verified body =
          let (reply, captcha) = post_verify uuid unicode utf8 sign ttl now body s.captcha in
          after_verify uuid unicode utf8 sign ttl prim decode is_email is_uuid now pick reply form'
            (record s { captcha = captcha })

      after_check :
          (body : Option VerifyBody)
          → verify_schema is_uuid (or_else form.captcha_id "") (trim form.captcha_answer) ≡ body
          → (verified body).0.at_login ≡ true
          → IsSignedUp unicode utf8 prim now later form s (verified body).1
      after_check body e h =
          let checked = post_verify uuid unicode utf8 sign ttl now body s.captcha in
          let (code, token, account, reply, kept, made) =
            after_verify-at_login form' (record s { captcha = checked.1 }) checked.0 new h in
          let (b, is) = post_verify-some uuid unicode utf8 sign ttl now body s.captcha reply in
          let (id, answer) =
            verify_schema-fields is_uuid (or_else form.captcha_id "") (trim form.captcha_answer) b
              (e ∙ is) in
          let (c, asked, in_time, right, spent) =
            post_verify-eq-sent uuid unicode utf8 sign ttl now b s.captcha
              (λ c g. whole c (rw id at g)) (rw is at reply) in
          let (session, after, opened, same) =
            register-login prim fresh_id fresh_token compared now later form.username form.email
              form.password s.auth.db well made in
          record {
            challenge = c;
            asked = rw id at asked;
            in_time = in_time;
            right = rw answer at right;
            spent =
                ap (λ (s : CaptchaState). get (or_else form.captcha_id "") s.store) kept
                ∙ rw (is, ← id) spent;
            account = account;
            registered = made;
            session = session;
            after = after;
            opened = opened;
            same = same;
          }
