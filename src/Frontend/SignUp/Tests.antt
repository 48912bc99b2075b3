-- ===== src/Frontend/SignUp/Tests.antt =====
-- A sign-up at a concrete form.
use micro_blog.Samples.{strokes, strokes_injective}
use micro_blog.Base.{
  All, arith, subst, ℕ, ◌≡◌, refl, ==_iff, text_eq, String, Text, codes, text_eqb, Bool, true,
  false, Option, some, List, [], ◌∷◌, ◌>>=◌,
}
use micro_blog.Post.Slug.{to_lower_case, is_space}
use micro_blog.Captcha.Padding.{NonZero}
use micro_blog.Captcha.Store.{StoredChallenge, get, verify_challenge, judge, same_padded}
use micro_blog.Captcha.Routes.{post_verify}
use micro_blog.Shared.Requests.{parsed}
use micro_blog.Auth.Service.{Primitives, register, insert_credential, publish}
use micro_blog.Auth.Captcha.{Payload, verify_captcha_token, check_payload, spend}
use micro_blog.Auth.Routes.{post_register}
use micro_blog.Schemas.{register_schema}
use micro_blog.Frontend.Fields.{trim, trim_start, trim_end}
use micro_blog.Frontend.SignUp.{SignUpForm, Site, handle_submit}
use micro_blog.Frontend.SignUp.Registers.{IsSignedUp, handle_submit-IsSignedUp}

-- A hash that is the password, with identifiers that never repeat.
abbrev prim : Primitives
prim = record {
  uuid = strokes;
  secret = strokes;
  hash = λ n p. p;
  compare = λ p h. text_eqb p h;
  hmac = λ raw. raw;
  sign = λ now claims. claims.username;
  lifetime = 100;
}

fits : (n : ℕ) (p : Text) → text_eqb p p ≡ true
fits n p = (==_iff p p).1 refl

abbrev caseless : ℕ → Text
caseless c = c ∷ []

abbrev ascii : Text → List ℕ
ascii t = t

abbrev token_for : String → String
token_for id = id

abbrev decode : String → Option Payload
decode token = some (record { v = true; jti = some token; exp = some 100 })

abbrev any_text : Text → Bool
any_text t = true

abbrev any_id : String → Bool
any_id id = true

abbrev first_char : ℕ → ℕ
first_char n = 0

abbrev form : SignUpForm
form = record {
  username = codes "ann";
  email = codes "ann@x.org";
  password = codes "secret99";
  captcha_id = some "|";
  captcha_answer = codes " aAaAaA";
  error = [];
  at_login = false;
}

abbrev site : Site
site = record {
  captcha = record {
    store = ("|", record { answer = codes "aaaaaa"; expires_at = 2000 }) ∷ [];
    drawn = 2;
  };
  auth = record {
    db = record {
      credentials = [];
      refresh_tokens = [];
      bus = record { up = true; log = [] };
      drawn = 0;
    };
    used = [];
  };
}

whole : (c : StoredChallenge) → get "|" site.captcha.store ≡ some c → All NonZero (ascii c.answer)
whole c h =
    let same : codes "aaaaaa" ≡ c.answer = cc in
    subst (λ t. All NonZero t) same
      (omega arith, (omega arith, (omega arith, (omega arith, (omega arith, (omega arith, tt))))))

handle_submit-IsSignedUp_example :
    IsSignedUp caseless ascii prim 1000 5000 form site
      (handle_submit strokes caseless ascii token_for 120 prim decode any_text any_id 1000
        first_char form site).1
unfolding handle_submit post_verify verify_challenge judge same_padded to_lower_case text_eqb trim
    trim_start trim_end is_space post_register parsed register insert_credential publish ◌>>=◌
    verify_captcha_token check_payload spend register_schema
handle_submit-IsSignedUp_example =
    handle_submit-IsSignedUp strokes caseless ascii token_for 120 prim decode any_text any_id 1000
      first_char strokes_injective strokes_injective fits 5000 form site
      (record { accounts = tt; sessions = tt; known = tt; owned = tt }) whole refl refl
