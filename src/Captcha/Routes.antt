-- ===== src/Captcha/Routes.antt =====
-- services/captcha/src/routes/captcha.ts. A body arrives as the schema passes it on, and as `none` where
-- the schema refuses it.
use micro_blog.Base.{ℕ, String, Text, Option, none, some, List, zod_error}
use micro_blog.Shared.Errors.{Reply, sent, refused, error_reply}
use micro_blog.Captcha.Store.{CaptchaState, generate_challenge, verify_challenge}

pub record VerifyBody : Type 0 where
  pub id : String
  pub answer : Text

module _ (uuid : ℕ → String) (unicode : ℕ → Text) (utf8 : Text → List ℕ) (sign : String → String)
    (ttl : ℕ) where
  -- GET /captcha/challenge, with the identifier of the challenge
  unfoldable pub get_challenge :
      (now : ℕ) (pick : ℕ → ℕ) → CaptchaState → Reply String × CaptchaState
  unfolding generate_challenge
  get_challenge now pick s =
      let (id, t) = generate_challenge uuid unicode utf8 sign ttl now pick s in (sent 200 id, t)

  abbrev token_reply : Option String → Reply String
  token_reply none = refused 400 "Invalid or expired captcha"
  token_reply (some token) = sent 200 token

  -- POST /captcha/verify
  unfoldable pub post_verify :
      (now : ℕ) → Option VerifyBody → CaptchaState → Reply String × CaptchaState
  unfolding verify_challenge
  post_verify now none s = (error_reply zod_error, s)
  post_verify now (some body) s =
      let (token, t) = verify_challenge uuid unicode utf8 sign ttl now body.id body.answer s in
      (token_reply token, t)
