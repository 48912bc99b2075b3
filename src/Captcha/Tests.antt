-- ===== src/Captcha/Tests.antt =====
-- Runs of the captcha service at concrete inputs, and its theorems at them.
use micro_blog.Samples.{strokes, strokes_injective}
use micro_blog.Base.{◌≡◌, refl, ℕ, arith, String, Text, codes, text_eqb, none, some, List, [], ◌∷◌}
use micro_blog.Post.Slug.{to_lower_case}
use micro_blog.Captcha.Store.{
  CaptchaState, generate_challenge, judge, verify_challenge, same_padded,
}
use micro_blog.Captcha.CleanUp.{replies, without_ticks, replies-without_ticks}
use micro_blog.Captcha.Life.{
  Request, challenge, verify, tick, handle_all, initial, verify_challenge_once,
}
use micro_blog.Captcha.Answers.{verify_challenge-generate_challenge}

-- Characters without case, and texts that are ASCII already.
abbrev caseless : ℕ → Text
caseless c = c ∷ []

abbrev ascii : Text → List ℕ
ascii t = t

abbrev token_for : String → String
token_for id = id

-- Six times the first character.
abbrev first_char : ℕ → ℕ
first_char n = 0

abbrev asked : CaptchaState
asked = record {
  store = ("", record { answer = codes "aaaaaa"; expires_at = 125 }) ∷ [];
  drawn = 1;
}

asked_run :
    handle_all strokes caseless ascii token_for 120 (challenge 5 first_char ∷ []) initial ≡ asked
unfolding handle_all generate_challenge to_lower_case
asked_run = refl

accepted_run :
    (verify_challenge strokes caseless ascii token_for 120 60 "" (codes "aAaAaA") asked).0
    ≡ some "|"
unfolding verify_challenge judge same_padded to_lower_case text_eqb
accepted_run = refl

verify_challenge_once_example :
    (verify_challenge strokes caseless ascii token_for 120 70 "" (codes "aaaaaa") (
      handle_all strokes caseless ascii token_for 120
        (challenge 65 first_char ∷ tick 66 ∷ [])
        (verify_challenge strokes caseless ascii token_for 120 60 "" (codes "aAaAaA") asked).1)).0
    ≡ none
verify_challenge_once_example =
    verify_challenge_once strokes strokes_injective caseless ascii token_for 120
      (challenge 5 first_char ∷ []) (challenge 65 first_char ∷ tick 66 ∷ []) 60 "" (codes "aAaAaA")
      "|" asked asked_run accepted_run 70 (codes "aaaaaa")

verify_challenge-generate_challenge_example :
    (verify_challenge strokes caseless ascii token_for 120 100
      (generate_challenge strokes caseless ascii token_for 120 5 first_char asked).0
      (codes "aAaaaa")
      (generate_challenge strokes caseless ascii token_for 120 5 first_char asked).1).0
    ≡ some "||"
unfolding to_lower_case
verify_challenge-generate_challenge_example =
    verify_challenge-generate_challenge strokes caseless ascii token_for 120 5 100 first_char
      (codes "aAaaaa") asked (omega arith) refl

-- The first challenge is answered in time, the second one too late, and the timer runs twice.
abbrev exchange : List Request
exchange =
    challenge 5 first_char
    ∷ tick 66
    ∷ verify 70 "" (codes "aaaaaa")
    ∷ challenge 80 first_char
    ∷ tick 300
    ∷ verify 301 "||" (codes "aaaaaa")
    ∷ []

replies-without_ticks_example :
    replies strokes caseless ascii token_for 120 exchange initial
    ≡ replies strokes caseless ascii token_for 120 (without_ticks exchange) initial
replies-without_ticks_example =
    replies-without_ticks strokes caseless ascii token_for 120 exchange refl
