-- ===== src/Auth/Gate.antt =====
-- What the captcha keeps out of the registration: services/auth/src/routes/auth.ts.
use micro_blog.Base.{
  string_eq, ==_iff, ◌≤◌, All, [], ◌∷◌, ◌≡◌, ◌⊎◌, refl, ap, inl, inr, ℕ, ◌/◌, String, true, false,
  not, Option, some, arith, truthy, or_else, Bool-cases, Option-cases, final, done, thrown, Failure,
  Run, Exec, ◌||◌,
}
use micro_blog.Frames.{bind-eq-thrown}
use micro_blog.Shared.Errors.{Reply}
use micro_blog.Auth.Service.{Primitives, Account}
use micro_blog.Auth.Captcha.{
  Payload, UsedJtis, has, prune, is_expired, spend, check_payload, verify_captcha_token,
}
use micro_blog.Auth.Routes.{AuthApp, Registration, on_used, post_register}

-- A captcha token that is valid now, and each of whose entries in the map of used tokens has expired.
pub record IsPass (decode : String → Option Payload) (now : ℕ) (used : UsedJtis)
    (token : Option String) : Type 0 where
  pub payload : Payload
  pub decoded : decode (or_else token "") ≡ some payload
  pub there : truthy token ≡ true
  pub verified : payload.v ≡ true
  pub current : is_expired now payload.exp ≡ false
  pub unused : truthy payload.jti ≡ true → All (λ e. e.0 ≡ or_else payload.jti "" → e.1 ≤ now) used

-- What is left of the map after it is pruned has the token, unless its entries have expired.
entries_expired :
    (now : ℕ) (jti : String) (used : UsedJtis)
    → has jti (prune now used) ≡ false
    → All (λ e. e.0 ≡ jti → e.1 ≤ now) used
entries_expired now jti [] h = tt
entries_expired now jti (e ∷ used) h =
    (λ same. ground (arith, ==_iff e.0 jti), entries_expired now jti used (ground arith))

spend-unused :
    (now : ℕ) (jti : String) (exp : Option ℕ) (s t : UsedJtis)
    → spend now jti exp s ≡ done tt t
    → All (λ e. e.0 ≡ jti → e.1 ≤ now) s
unfolding spend
spend-unused now jti exp s t h = elim (Bool-cases (has jti (prune now s))) [
  | inl y ↦ cc (rw (y, spend) at h)
  | inr n ↦ entries_expired now jti s n
]

check_payload-IsPass :
    (decode : String → Option Payload) (now : ℕ) (token : Option String) (p : Payload)
    (s t : UsedJtis)
    → decode (or_else token "") ≡ some p
    → truthy token ≡ true
    → check_payload now p s ≡ done tt t
    → IsPass decode now s token
unfolding check_payload
check_payload-IsPass decode now token p s t d y h =
    elim (Bool-cases (not p.v || is_expired now p.exp)) [
      | inl bad ↦ cc (rw (bad, check_payload) at h)
      | inr ok ↦ record {
        payload = p;
        decoded = d;
        there = y;
        verified = ground arith;
        current = ground arith;
        unused =
            λ j. spend-unused now (or_else p.jti "") p.exp s t (rw (ok, j, check_payload) at h);
      }
    ]

verify_captcha_token-IsPass :
    (decode : String → Option Payload) (now : ℕ) (token : Option String) (s t : UsedJtis)
    → verify_captcha_token decode true now token s ≡ done tt t
    → IsPass decode now s token
unfolding verify_captcha_token
verify_captcha_token-IsPass decode now token s t h = elim (Bool-cases (truthy token)) [
  | inr n ↦ cc (rw (n, verify_captcha_token) at h)
  | inl y ↦ elim (Option-cases (decode (or_else token ""))) [
    | inl n ↦ cc (rw (y, n, verify_captcha_token) at h)
    | inr (p, d) ↦
        check_payload-IsPass decode now token p s t d y (rw (y, d, verify_captcha_token) at h)
  ]
]

on_used-thrown :
    {A : Type 0} (action : Exec UsedJtis A) (s : AuthApp) {e : Failure} {used : UsedJtis}
    → action s.used ≡ thrown e used
    → on_used action s ≡ thrown e (record s { used = used })
on_used-thrown action s h = rw (h, on_used) refl

on_used-db :
    (decode : String → Option Payload) (now : ℕ) (token : Option String) (s : AuthApp)
    → ((e : Failure) × (used : UsedJtis) × (on_used (verify_captcha_token decode true now token) s
          ≡ thrown e (record s { used = used })))
      ⊎ IsPass decode now s.used token
on_used-db decode now token s = go (verify_captcha_token decode true now token s.used) refl
  where
    go :
        (r : Run UsedJtis (Unit {0}))
        → verify_captcha_token decode true now token s.used ≡ r
        → ((e : Failure) × (used : UsedJtis) × (on_used
                (verify_captcha_token decode true now token)
                s
              ≡ thrown e (record s { used = used })))
          ⊎ IsPass decode now s.used token
    go (done v t) h = inr (verify_captcha_token-IsPass decode now token s.used t h)
    go (thrown e t) h = inl (e, t, on_used-thrown (verify_captcha_token decode true now token) s h)

-- Where a captcha is configured, a registration changes nothing in the database, or it came with a captcha
-- token that the secret verifies and that has not expired, and that, where it has an identifier, is in the map of
-- used tokens under no time of expiry later than now. A token without an identifier can be used again.
pub post_register-guarded :
    (prim : Primitives) (now : ℕ) (decode : String → Option Payload) (token : Option String)
    (body : Option Registration) (s : AuthApp)
    → ((final (post_register prim now decode true token body s)).db ≡ s.db)
      ⊎ IsPass decode (now / 1000) s.used token
unfolding post_register
post_register-guarded prim now decode token body s = elim (on_used-db decode (now / 1000) token s) [
  | inl (e, used, h) ↦
      inl (ap (λ (r : Run AuthApp (Reply Account)). (final r).db) (bind-eq-thrown _ _ s h))
  | inr pass ↦ inr pass
]
