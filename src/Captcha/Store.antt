-- ===== src/Captcha/Store.antt =====
-- services/captcha/src/captcha.ts: the challenges in memory and the operations on them. The image that
-- goes with a challenge is left out.
use micro_blog.Base.{
  ℕ, zero, suc, ◌+◌, ◌-◌, String, Text, codes, string_eq, text_eq, ◌==◌, Bool, not, Option, none,
  some, List, [], ◌∷◌, ◌++◌, length, filter, ltb, leb, if◌then◌else◌,
}
use micro_blog.Post.Slug.{to_lower_case}

pub record StoredChallenge : Type 0 where
  pub answer : Text
  pub expires_at : ℕ

-- A `Map`, as its entries in the order of insertion.
abbrev pub Store : Type 0
Store = List (String × StoredChallenge)

-- `store.get(id)`
abbrev pub get : String → Store → Option StoredChallenge
get id [] = none
get id ((k, c) ∷ entries) = if k == id then some c else get id entries

-- `store.delete(id)`
abbrev pub remove : String → Store → Store
remove id entries = filter (λ e. not (e.0 == id)) entries

-- `store.set(id, challenge)`: the entry of a key that is there keeps its place.
abbrev pub set : String → StoredChallenge → Store → Store
set id c [] = (id, c) ∷ []
set id c ((k, d) ∷ entries) = if k == id then (k, c) ∷ entries else (k, d) ∷ set id c entries

-- The store, and how many identifiers were drawn (`crypto.randomUUID`).
pub record CaptchaState : Type 0 where
  pub store : Store
  pub drawn : ℕ

abbrev pub charset : Text
charset = codes "ABCDEFGHJKLMNPQRSTUVWXYZabcdefghjkmnpqrstuvwxyz23456789"

-- `CHARSET[i]`, as `text += …` reads it.
abbrev pub char_at : Text → ℕ → Text
char_at [] i = codes "undefined"
char_at (c ∷ s) zero = c ∷ []
char_at (c ∷ s) (suc i) = char_at s i

-- `rounds` rounds of the loop of `generateChallenge`; `pick` gives the numbers that `crypto.randomInt`
-- draws, one for each round.
abbrev pub random_text : (pick : ℕ → ℕ) → (rounds : ℕ) → Text
random_text pick zero = []
random_text pick (suc n) = random_text pick n ++ char_at charset (pick n)

-- `Buffer.alloc(n, 0)`
abbrev pub zeros : ℕ → List ℕ
zeros zero = []
zeros (suc n) = 0 ∷ zeros n

-- `bytes.copy(Buffer.alloc(size, 0))`, where `size` is enough
abbrev pub padded : (size : ℕ) → List ℕ → List ℕ
padded size bytes = bytes ++ zeros (size - length bytes)

-- `Math.max`
abbrev pub max_of : ℕ → ℕ → ℕ
max_of a b = if leb a b then b else a

-- The comparison of `verifyChallenge`, on the bytes of both answers.
unfoldable pub same_padded : (expected actual : List ℕ) → Bool
same_padded expected actual =
    let size = max_of (length expected) (length actual) in
    padded size expected == padded size actual

-- `unicode` gives lower case outside ASCII, `utf8` the bytes of `Buffer.from(text, 'utf8')`, and `sign`
-- the token that `jwt.sign` makes for an identifier.
module _ (uuid : ℕ → String) (unicode : ℕ → Text) (utf8 : Text → List ℕ) (sign : String → String)
    (ttl : ℕ) where
  unfoldable pub generate_challenge :
      (now : ℕ) (pick : ℕ → ℕ) → CaptchaState → String × CaptchaState
  generate_challenge now pick s = (
    uuid s.drawn,
    record {
      store =
          set (uuid s.drawn)
            (record { answer = to_lower_case unicode (random_text pick 6); expires_at = now + ttl })
            s.store;
      drawn = s.drawn + 1;
    },
  )

  -- What `verifyChallenge` does with the challenge that it has taken out of the store.
  unfoldable pub judge :
      (now : ℕ) → Text → Option StoredChallenge → CaptchaState → Option String × CaptchaState
  judge now answer none s = (none, s)
  judge now answer (some c) s =
      if ltb c.expires_at now
      then (none, s)
      else if same_padded (utf8 c.answer) (utf8 (to_lower_case unicode answer))
      then (some (sign (uuid s.drawn)), record s { drawn = s.drawn + 1 })
      else (none, s)

  unfoldable pub verify_challenge :
      (now : ℕ) → (id : String) → (answer : Text) → CaptchaState → Option String × CaptchaState
  verify_challenge now id answer s =
      judge now answer (get id s.store) (record s { store = remove id s.store })

-- One round of the timer of `startCleanupInterval`.
unfoldable pub clean_up : (now : ℕ) → CaptchaState → CaptchaState
clean_up now s = record s { store = filter (λ e. not (ltb e.1.expires_at now)) s.store }
