-- ===== src/Captcha/Answers.antt =====
-- Which answers to a challenge are accepted.
use micro_blog.Base.{
  ◌≡◌, ◌↔◌, refl, ℕ, ◌+◌, ◌≤◌, arith, String, Text, text_eq, text_eqb_iff, true, false, some, List,
  ◌++◌, All, ltb,
}
use micro_blog.Captcha.Store.{
  StoredChallenge, CaptchaState, get, random_text, zeros, same_padded, generate_challenge, judge,
  verify_challenge,
}
use micro_blog.Captcha.Padding.{NonZero, same_padded_iff}
use micro_blog.Captcha.Life.{get-set_self}
use micro_blog.Post.Slug.{to_lower_case}

module _ (uuid : ℕ → String) (unicode : ℕ → Text) (utf8 : Text → List ℕ) (sign : String → String)
    (ttl : ℕ) where
  -- An answer earns a token exactly where the challenge is there, it has not expired, and the bytes of
  -- the answer in lower case are those of the stored one, with any number of zero bytes after them; no
  -- byte of the stored answer is assumed to be zero.
  pub verify_challenge_iff :
      (now : ℕ) (id : String) (answer : Text) (s : CaptchaState) (c : StoredChallenge)
      → get id s.store ≡ some c
      → All NonZero (utf8 c.answer)
      → ((verify_challenge uuid unicode utf8 sign ttl now id answer s).0
          ≡ some (sign (uuid s.drawn)))
        ↔ ((now ≤ c.expires_at)
            × ((k : ℕ) × (utf8 (to_lower_case unicode answer) ≡ utf8 c.answer ++ zeros k)))
  unfolding verify_challenge judge
  verify_challenge_iff now id answer s c g n =
      let same = same_padded_iff (utf8 c.answer) (utf8 (to_lower_case unicode answer)) n in
      (λ h. (ground arith, same.0 (ground arith)), λ (le, w). let e = same.1 w in ground arith)

same_padded_refl : (b : List ℕ) → same_padded b b ≡ true
unfolding same_padded
same_padded_refl b = (text_eqb_iff _ _).1 refl

-- The answer to a new challenge, in upper or lower case, earns a token until the challenge expires.
pub verify_challenge-generate_challenge :
    (uuid : ℕ → String) (unicode : ℕ → Text) (utf8 : Text → List ℕ) (sign : String → String)
    (ttl now later : ℕ) (pick : ℕ → ℕ) (answer : Text) (s : CaptchaState)
    → later ≤ now + ttl
    → to_lower_case unicode answer ≡ to_lower_case unicode (random_text pick 6)
    → (verify_challenge uuid unicode utf8 sign ttl later
        (generate_challenge uuid unicode utf8 sign ttl now pick s).0
        answer
        (generate_challenge uuid unicode utf8 sign ttl now pick s).1).0
      ≡ some (sign (uuid (s.drawn + 1)))
unfolding verify_challenge judge generate_challenge
verify_challenge-generate_challenge uuid unicode utf8 sign ttl now later pick answer s le e =
    let open_still : ltb (now + ttl) later ≡ false = ground arith in
    rw (get-set_self (uuid s.drawn) _ s.store, e, same_padded_refl, open_still) refl
