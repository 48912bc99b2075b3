-- ===== src/Frontend/SignUp/Replies.antt =====
-- services/frontend/src/pages/RegisterPage.tsx: what the captcha service and the auth service have done where they give
-- it what it asks for.
use micro_blog.Base.{
  All, ◌++◌, ◌≡◌, refl, ◌/◌, sym, ap, ◌∙◌, inl, inr, ℕ, ◌≤◌, arith, String, Text, Bool, Option,
  none, some, List, ltb, Bool-cases, Option-cases, Run, done, thrown, Exec,
}
use micro_blog.Frames.{after_done, return-eq-done}
use micro_blog.Shared.Errors.{Reply, sent}
use micro_blog.Shared.Requests.{parsed}
use micro_blog.Captcha.Store.{
  StoredChallenge, CaptchaState, get, remove, zeros, same_padded, judge, verify_challenge,
}
use micro_blog.Captcha.Padding.{NonZero, same_padded_iff}
use micro_blog.Post.Slug.{to_lower_case}
use micro_blog.Captcha.Life.{get-remove_self}
use micro_blog.Captcha.Routes.{VerifyBody, post_verify}
use micro_blog.Auth.Service.{AuthDb, Primitives, Account, register}
use micro_blog.Auth.Captcha.{Payload, UsedJtis, verify_captcha_token}
use micro_blog.Auth.Routes.{AuthApp, Registration, on_db, on_used, post_register}
use micro_blog.Schemas.{register_schema}
use micro_blog.Frontend.SignUp.{SignUpForm, registration_body, verify_schema}

on_used-eq-done :
    {A : Type 0} (action : Exec UsedJtis A) (s t : AuthApp) {a : A}
    → on_used action s ≡ done a t
    → s.db ≡ t.db
on_used-eq-done action s t {a} h = go (action s.used) h
  where
    go :
        (r : Run UsedJtis _)
        → elim r [
          | done a used ↦ done a (record s { used = used })
          | thrown e used ↦ thrown e (record s { used = used })
        ]
          ≡ done a t
        → s.db ≡ t.db
    go (done a used) h = cc
    go (thrown e used) h = cc

on_db-eq-done :
    {A : Type 0} (action : Exec AuthDb A) (s t : AuthApp) {a : A}
    → on_db action s ≡ done a t
    → action s.db ≡ done a t.db
on_db-eq-done action s t {a} h = go (action s.db) refl h
  where
    go :
        (r : Run AuthDb _)
        → action s.db ≡ r
        → elim r [
          | done a db ↦ done a (record s { db = db })
          | thrown e db ↦ thrown e (record s { db = db })
        ]
          ≡ done a t
        → action s.db ≡ done a t.db
    go (done b db) e h = cc
    go (thrown x db) e h = cc

parsed-eq-done :
    {S A : Type 0} (body : Option A) (s t : S) {a : A}
    → parsed body s ≡ done a t
    → (body ≡ some a) × (s ≡ t)
unfolding parsed
parsed-eq-done none s t h = cc
parsed-eq-done (some b) s t h = (cc, cc)

-- A registration that is answered has been made.
pub post_register-eq-done :
    (prim : Primitives) (now : ℕ) (decode : String → Option Payload) (configured : Bool)
    (token : Option String) (body : Option Registration) (s t : AuthApp) {r : Reply Account}
    → post_register prim now decode configured token body s ≡ done r t
    → (b : Registration) × (a : Account) × (body ≡ some b)
      × (r ≡ sent 201 a)
      × (register prim now b.username b.email b.password s.db ≡ done a t.db)
unfolding post_register
post_register-eq-done prim now decode configured token body s t h = after_done _ _ h λ u s1 e1 h1.
    after_done _ _ h1 λ b s2 e2 h2. after_done _ _ h2 λ a s3 e3 h3.
      let (is, q2) = parsed-eq-done body s1 s2 e2 in
      let q1 =
        on_used-eq-done (verify_captcha_token decode configured (now / 1000) token) s s1 e1 in
      let made = on_db-eq-done (register prim now b.username b.email b.password) s2 s3 e3 in
      let (answer, q3) = return-eq-done _ s3 t h3 in
      let before : s2.db ≡ s.db = sym (q1 ∙ ap (λ (s : AuthApp). s.db) q2) in
      (b, a, is, sym answer, rw (before, q3) at made)

pub register_schema-eq-some :
    (is_email : Text → Bool) (form : SignUpForm) (b : Registration)
    → register_schema is_email (registration_body form) ≡ some b
    → record { username = form.username; email = form.email; password = form.password } ≡ b
unfolding register_schema
register_schema-eq-some is_email form b h = ground arith

judge-store :
    (uuid : ℕ → String) (unicode : ℕ → Text) (utf8 : Text → List ℕ) (sign : String → String)
    (ttl now : ℕ) (answer : Text) (c : Option StoredChallenge) (s : CaptchaState)
    → (judge uuid unicode utf8 sign ttl now answer c s).1.store ≡ s.store
unfolding judge
judge-store uuid unicode utf8 sign ttl now answer none s = refl
judge-store uuid unicode utf8 sign ttl now answer (some c) s = ground arith

-- A check that gives a token found the challenge in time, got the right answer to it, and took it away.
pub post_verify-eq-sent :
    (uuid : ℕ → String) (unicode : ℕ → Text) (utf8 : Text → List ℕ) (sign : String → String)
    (ttl now : ℕ) (b : VerifyBody) (s : CaptchaState) {code : ℕ} {token : String}
    → ((c : StoredChallenge) → get b.id s.store ≡ some c → All NonZero (utf8 c.answer))
    → (post_verify uuid unicode utf8 sign ttl now (some b) s).0 ≡ sent code token
    → (c : StoredChallenge) × (get b.id s.store ≡ some c)
      × (now ≤ c.expires_at)
      × ((k : ℕ) × (utf8 (to_lower_case unicode b.answer) ≡ utf8 c.answer ++ zeros k))
      × (get b.id (post_verify uuid unicode utf8 sign ttl now (some b) s).1.store ≡ none)
unfolding post_verify verify_challenge judge
post_verify-eq-sent uuid unicode utf8 sign ttl now b s whole h =
    elim (Option-cases (get b.id s.store)) [
      | inl n ↦ cc (rw (n) at h)
      | inr (c, e) ↦ elim (Bool-cases (ltb c.expires_at now)) [
        | inl late ↦ cc (rw (e, late) at h)
        | inr soon ↦
            elim (Bool-cases
              (same_padded (utf8 c.answer) (utf8 (to_lower_case unicode b.answer)))) [
                | inr wrong ↦ cc (rw (e, soon, wrong) at h)
                | inl right ↦ (
                  c,
                  e,
                  ground arith,
                  (same_padded_iff (utf8 c.answer) (utf8 (to_lower_case unicode b.answer))
                        (whole c e)).0
                      right,
                  ap (get b.id) (
                        judge-store uuid unicode utf8 sign ttl now b.answer (get b.id s.store)
                          (record s { store = remove b.id s.store }))
                      ∙ get-remove_self b.id s.store,
                )
              ]
      ]
    ]

pub post_verify-some :
    (uuid : ℕ → String) (unicode : ℕ → Text) (utf8 : Text → List ℕ) (sign : String → String)
    (ttl now : ℕ) (body : Option VerifyBody) (s : CaptchaState) {code : ℕ} {token : String}
    → (post_verify uuid unicode utf8 sign ttl now body s).0 ≡ sent code token
    → (b : VerifyBody) × (body ≡ some b)
unfolding post_verify
post_verify-some uuid unicode utf8 sign ttl now none s h = cc
post_verify-some uuid unicode utf8 sign ttl now (some b) s h = (b, refl)

pub verify_schema-fields :
    (is_uuid : String → Bool) (id : String) (answer : Text) (b : VerifyBody)
    → verify_schema is_uuid id answer ≡ some b
    → (b.id ≡ id) × (b.answer ≡ answer)
verify_schema-fields is_uuid id answer b h = ground arith
