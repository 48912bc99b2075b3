-- ===== src/Auth/Tests.antt =====
-- The theorems on the auth service at concrete inputs.
use micro_blog.Base.{
  inr, ◌≡◌, ◌⊎◌, refl, ℕ, arith, String, Text, codes, text_eqb, true, false, Option, none, some, [],
  ◌∷◌, final, done, thrown, text_eq, string_eq, ==_iff, ◌>>=◌,
}
use micro_blog.Samples.{strokes, strokes_injective}
use micro_blog.Shared.Errors.{unauthorized, forbidden}
use micro_blog.Shared.Events.{Bus}
use micro_blog.Auth.Service.{
  Credential, AuthDb, Primitives, Account, Session, Renewal, register, login, refresh,
  change_password, bootstrap_admin, demand, insert_credential, insert_token, publish,
}
use micro_blog.Auth.Captcha.{Payload, prune, spend, check_payload, verify_captcha_token}
use micro_blog.Auth.SingleUse.{attempt_all, IsToken, verify_captcha_token_once}
use micro_blog.Auth.Requests.{Request, register_user, log_in, handle_all}
use micro_blog.Auth.Invariant.{IsWellFormed}
use micro_blog.Auth.Constraints.{empty, handle_all-IsWellFormed}
use micro_blog.Auth.Rotation.{refresh_again}
use micro_blog.Shared.Errors.{conflict}
use micro_blog.Auth.Taken.{register_twice}
use micro_blog.Auth.RoundTrips.{register-login, login-refresh}
use micro_blog.Auth.Passwords.{IsChanged, change_password-IsChanged, login-change_password}
use micro_blog.Auth.Bootstrap.{IsSeeded, bootstrap_admin-IsSeeded}
use micro_blog.Auth.Routes.{post_register}
use micro_blog.Auth.Gate.{IsPass, post_register-guarded}

abbrev bus_up : Bus
bus_up = record { up = true; log = [] }

-- A hash that is the password, with identifiers that never repeat.
abbrev prim : Primitives
prim = record {
  uuid = strokes;
  secret = strokes;
  hash = λ n p. p;
  compare = λ p h. text_eqb p h;
  hmac = λ raw. raw;
  sign = λ now claims. claims.username;
  lifetime = 100;
}

abbrev ann : Request
ann = register_user 1 (codes "ann") (codes "ann@x.org") (codes "secret99")

abbrev with_ann : AuthDb
with_ann = handle_all prim (ann ∷ []) (empty bus_up)

well : IsWellFormed prim with_ann
well = handle_all-IsWellFormed prim bus_up (ann ∷ [])

abbrev logged_in : AuthDb
logged_in = final (login prim 5 (codes "ann@x.org") (codes "secret99") with_ann)

abbrev ann_account : Account
ann_account = record { id = ""; username = codes "ann"; email = codes "ann@x.org"; role = "user" }

abbrev ann_session : Session
ann_session = record { access_token = codes "ann"; refresh_token = "|"; user = ann_account }

login-refresh_example :
    (r : Renewal) × (t : AuthDb) × (refresh prim 50 "|" logged_in ≡ done r t)
    × (r.access_token ≡ codes "ann")
unfolding login ◌>>=◌ demand handle_all register insert_credential publish text_eqb insert_token
login-refresh_example =
    login-refresh prim strokes_injective strokes_injective 5 50 (codes "ann@x.org")
      (codes "secret99") with_ann {v = ann_session} {t = logged_in} well refl (omega arith)

fits : (n : ℕ) (p : Text) → text_eqb p p ≡ true
fits n p = (==_iff p p).1 refl

register-login_example :
    (session : Session) × (t : AuthDb) × (login prim 5
        (codes "ann@x.org")
        (codes "secret99")
        with_ann
      ≡ done session t)
    × (session.user ≡ ann_account)
unfolding handle_all register ◌>>=◌ insert_credential publish
register-login_example =
    register-login prim strokes_injective strokes_injective fits 1 5 (codes "ann")
      (codes "ann@x.org") (codes "secret99") (empty bus_up) {a = ann_account} {t = with_ann}
      (handle_all-IsWellFormed prim bus_up []) refl

abbrev renewed : AuthDb
renewed = final (refresh prim 50 "|" logged_in)

refresh_again_example :
    refresh prim 60 "|"
      (handle_all prim (log_in 55 (codes "ann@x.org") (codes "secret99") ∷ []) renewed)
    ≡ thrown
        (unauthorized "Invalid or expired refresh token")
        (handle_all prim (log_in 55 (codes "ann@x.org") (codes "secret99") ∷ []) renewed)
unfolding refresh ◌>>=◌ demand handle_all login register insert_credential publish text_eqb
    insert_token
refresh_again_example =
    refresh_again prim bus_up (ann ∷ log_in 5 (codes "ann@x.org") (codes "secret99") ∷ [])
      (log_in 55 (codes "ann@x.org") (codes "secret99") ∷ []) 50 60 "|"
      {v = record { access_token = codes "ann"; refresh_token = "||" }} {t = renewed}
      strokes_injective refl

abbrev changed : AuthDb
changed = final (change_password prim 7 "" (codes "secret99") (codes "other999") logged_in)

change_password-IsChanged_example :
    IsChanged prim 7 "" (codes "secret99") (codes "other999") logged_in changed
unfolding change_password ◌>>=◌ demand login handle_all register insert_credential publish text_eqb
    insert_token
change_password-IsChanged_example =
    change_password-IsChanged prim 7 "" (codes "secret99") (codes "other999") logged_in
      {t = changed} refl

abbrev ann_row : Credential
ann_row = record {
  id = "";
  email = codes "ann@x.org";
  username = codes "ann";
  role = "user";
  password_hash = codes "secret99";
  active = true;
  created_at = 1;
  updated_at = 1;
}

abbrev with_ann_changed : AuthDb
with_ann_changed = final (change_password prim 7 "" (codes "secret99") (codes "other999") with_ann)

login-change_password_example :
    ((session : Session) × (t : AuthDb) × (login prim 9
          (codes "ann@x.org")
          (codes "other999")
          with_ann_changed
        ≡ done session t)
      × (session.user ≡ ann_account))
    × ((p : Text)
        → text_eqb p (codes "other999") ≡ false
        → login prim 9 (codes "ann@x.org") p with_ann_changed
          ≡ thrown (unauthorized "Invalid credentials") with_ann_changed)
unfolding handle_all register ◌>>=◌ insert_credential publish change_password demand text_eqb
login-change_password_example =
    login-change_password prim 7 9 "" (codes "secret99") (codes "other999") with_ann ann_row
      {t = with_ann_changed} strokes_injective strokes_injective fits well refl refl refl

bootstrap_admin-IsSeeded_example :
    IsSeeded (codes "ann@x.org") with_ann (
      final
        (bootstrap_admin prim 8 (codes "admin") (codes "ann@x.org") (codes "pass1234") with_ann))
unfolding text_eqb bootstrap_admin ◌>>=◌ handle_all register insert_credential publish
bootstrap_admin-IsSeeded_example =
    bootstrap_admin-IsSeeded prim 8 (codes "admin") (codes "ann@x.org") (codes "pass1234") with_ann
      well.accounts refl refl

-- A token that is its own payload.
abbrev decode : String → Option Payload
decode raw = some (record { v = true; jti = some raw; exp = some 90 })

abbrev token : IsToken decode "t" "t" 90
token = record { given = refl; decoded = refl; named = refl }

verify_captcha_token_once_example :
    verify_captcha_token decode true 60
      (some "t")
      (attempt_all decode (record { now = 50; token = some "u" } ∷ []) (("t", 90) ∷ []))
    ≡ thrown (forbidden "Captcha token already used") (
        prune 60 (attempt_all decode (record { now = 50; token = some "u" } ∷ []) (("t", 90) ∷ [])))
unfolding verify_captcha_token check_payload spend
verify_captcha_token_once_example =
    verify_captcha_token_once decode "t" "t" 90 40 [] (("t", 90) ∷ []) token (omega arith) refl
      (record { now = 50; token = some "u" } ∷ []) 60 (omega arith, tt) (omega arith)

post_register-guarded_example :
    ((final (
        post_register prim 8000 decode true none
          (some (record {
            username = codes "bob";
            email = codes "bob@x.org";
            password = codes "secret99";
          }))
          (record { db = with_ann; used = [] }))).db
      ≡ with_ann)
    ⊎ IsPass decode 8 [] none
post_register-guarded_example =
    post_register-guarded prim 8000 decode none
      (some
        (record { username = codes "bob"; email = codes "bob@x.org"; password = codes "secret99" }))
      (record { db = with_ann; used = [] })

register_twice_example :
    register prim 9 (codes "anna") (codes "ann@x.org") (codes "secret88") with_ann
    ≡ thrown (conflict "User with this email or username already exists") with_ann
unfolding handle_all register ◌>>=◌ insert_credential publish
register_twice_example =
    register_twice prim 1 9 (codes "ann") (codes "ann@x.org") (codes "secret99") (codes "anna")
      (codes "ann@x.org") (codes "secret88") (empty bus_up) with_ann ann_account refl (inr refl)
