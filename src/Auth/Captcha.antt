-- ===== src/Auth/Captcha.antt =====
-- `verifyCaptchaToken` of services/auth/src/routes/auth.ts, and the map of the tokens that were used.
use micro_blog.Base.{
  ℕ, ◌+◌, String, string_eq, ◌==◌, Bool, false, not, Option, none, some, List, [], ◌∷◌, ◌++◌, ◌||◌,
  ◌&&◌, nat_eq, filter, any, ltb, leb, truthy, or_else, if◌then◌else◌, Exec, done, thrown,
}
use micro_blog.Shared.Errors.{validation, forbidden}

-- `payload`, whose fields may be missing; times are in seconds.
pub record Payload : Type 0 where
  pub v : Bool
  pub jti : Option String
  pub exp : Option ℕ

-- `usedCaptchaJtis`, in the order of insertion
abbrev pub UsedJtis : Type 0
UsedJtis = List (String × ℕ)

abbrev pub has : String → UsedJtis → Bool
has jti used = any (λ e. e.0 == jti) used

-- `if (exp <= now) usedCaptchaJtis.delete(key)`, for every entry
abbrev pub prune : (now : ℕ) → UsedJtis → UsedJtis
prune now used = filter (λ e. not (leb e.1 now)) used

-- `payload.exp && payload.exp < now`: a time of zero counts as none.
abbrev pub is_expired : (now : ℕ) → Option ℕ → Bool
is_expired now none = false
is_expired now (some exp) = not (exp == 0) && ltb exp now

-- The end of the function, for a payload with a `jti`. `set` on a key that is not there appends.
unfoldable pub spend : (now : ℕ) (jti : String) → Option ℕ → Exec UsedJtis (Unit {0})
spend now jti exp used =
    if has jti (prune now used)
    then thrown (forbidden "Captcha token already used") (prune now used)
    else done tt (prune now used ++ (jti, or_else exp (now + 300)) ∷ [])

unfoldable pub check_payload : (now : ℕ) → Payload → Exec UsedJtis (Unit {0})
check_payload now payload used =
    if not payload.v || is_expired now payload.exp
    then thrown (forbidden "Invalid or expired captcha token") used
    else if truthy payload.jti
    then spend now (or_else payload.jti "") payload.exp used
    else done tt used

-- `decode` checks the signature with the secret and parses the payload.
unfoldable pub verify_captcha_token :
    (decode : String → Option Payload) (configured : Bool) (now : ℕ) (token : Option String)
    → Exec UsedJtis (Unit {0})
verify_captcha_token decode configured now token used =
    if not configured
    then done tt used
    else if not (truthy token)
    then thrown (validation "Missing captcha token") used
    else elim (decode (or_else token "")) [
      | none ↦ thrown (forbidden "Invalid or expired captcha token") used
      | some payload ↦ check_payload now payload used
    ]
