-- ===== src/Captcha/CleanUp.antt =====
-- services/captcha/src/captcha.ts: the timer of `startCleanupInterval` only saves memory.
use micro_blog.Base.{
  ◌≡◌, inl, inr, refl, sym, ap, ◌∙◌, ℕ, ◌+◌, ◌≤◌, arith, String, Text, string_eq, ◌==◌, ==_iff,
  Bool, true, false, not, ◌&&◌, Option, none, some, List, [], ◌∷◌, filter, any, ltb, leb,
  Bool-cases, if◌then◌else◌,
}
use micro_blog.Sql.Distinct.{Distinct, Distinct-filter}
use micro_blog.Captcha.Store.{
  StoredChallenge, Store, CaptchaState, get, set, remove, generate_challenge, judge,
  verify_challenge, clean_up,
}
use micro_blog.Captcha.Life.{
  Request, challenge, verify, tick, handle, initial, get-set_self, get-set_ne, get-remove_self,
}

abbrev key_clash : String × StoredChallenge → String × StoredChallenge → Bool
key_clash e f = e.0 == f.0

-- A challenge that has not expired.
abbrev live : ℕ → Option StoredChallenge → Option StoredChallenge
live now none = none
live now (some c) = if ltb c.expires_at now then none else some c

-- The time of a request, and whether the times never go back.
abbrev pub time : Request → ℕ
time (challenge now pick) = now
time (verify now id answer) = now
time (tick now) = now

abbrev pub is_forward : ℕ → List Request → Bool
is_forward now [] = true
is_forward now (r ∷ rs) = leb now (time r) && is_forward (time r) rs

abbrev is_tick : Request → Bool
is_tick (tick now) = true
is_tick _ = false

abbrev pub without_ticks : List Request → List Request
without_ticks rs = filter (λ r. not (is_tick r)) rs

module _ (uuid : ℕ → String) (unicode : ℕ → Text) (utf8 : Text → List ℕ) (sign : String → String)
    (ttl : ℕ) where
  -- What the service answers: the identifier of a new challenge, or the token of a check.
  abbrev pub reply : Request → CaptchaState → Option String
  reply (challenge now pick) s = some (generate_challenge uuid unicode utf8 sign ttl now pick s).0
  reply (verify now id answer) s = (verify_challenge uuid unicode utf8 sign ttl now id answer s).0
  reply (tick now) s = none

  -- All its answers to requests.
  unfoldable pub replies : List Request → CaptchaState → List (Option String)
  replies [] s = []
  replies (tick now ∷ rs) s = replies rs (handle uuid unicode utf8 sign ttl (tick now) s)
  replies (challenge now pick ∷ rs) s =
      reply (challenge now pick) s
      ∷ replies rs (handle uuid unicode utf8 sign ttl (challenge now pick) s)
  replies (verify now id answer ∷ rs) s =
      reply (verify now id answer) s
      ∷ replies rs (handle uuid unicode utf8 sign ttl (verify now id answer) s)

  -- What a check draws and answers, without the store.
  abbrev judged : (now : ℕ) → Text → Option StoredChallenge → ℕ → Option String × CaptchaState
  judged now answer c n =
      judge uuid unicode utf8 sign ttl now answer c (record { store = []; drawn = n })

  judge_store :
      (now : ℕ) (answer : Text) (c : Option StoredChallenge) (st : Store) (n : ℕ)
      → judge uuid unicode utf8 sign ttl now answer c (record { store = st; drawn = n }) ≡ (
        (judged now answer c n).0,
        record { store = st; drawn = (judged now answer c n).1.drawn },
      )
  unfolding judge
  judge_store now answer none st n = refl
  judge_store now answer (some c) st n = ground arith

  judged-live :
      (now : ℕ) (answer : Text) (c : Option StoredChallenge) (n : ℕ)
      → judged now answer (live now c) n ≡ judged now answer c n
  unfolding judge
  judged-live now answer none n = refl
  judged-live now answer (some c) n = elim (Bool-cases (ltb c.expires_at now)) [
    | inl y ↦ rw y refl
    | inr f ↦
        let current : live now (some c) ≡ some c = rw f refl in
        ap (λ x. judged now answer x n) current
  ]

  judged_alike :
      (now : ℕ) (answer : Text) (c d : Option StoredChallenge) (n : ℕ)
      → live now c ≡ live now d
      → judged now answer c n ≡ judged now answer d n
  judged_alike now answer c d n e =
      sym (judged-live now answer c n)
      ∙ ap (λ x. judged now answer x n) e
      ∙ judged-live now answer d n

live_later :
    (now later : ℕ) (c : Option StoredChallenge)
    → now ≤ later
    → live later (live now c) ≡ live later c
live_later now later none le = refl
live_later now later (some c) le = ground arith

get-absent :
    (id k : String) (c : StoredChallenge) (st : Store)
    → (k == id) ≡ true
    → any (key_clash (k, c)) st ≡ false
    → get id st ≡ none
get-absent id k c [] e h = refl
get-absent id k c ((j, d) ∷ st) e h =
    ground (arith, ==_iff k id, ==_iff j id, ==_iff k j, get-absent id k c st e)

get-filter :
    (now : ℕ) (id : String) (st : Store)
    → Distinct key_clash st
    → live now (get id (filter (λ e. not (ltb e.1.expires_at now)) st)) ≡ live now (get id st)
get-filter now id [] d = refl
get-filter now id ((k, c) ∷ st) (new, d) = elim (Bool-cases (k == id)) [
  | inl y ↦ elim (Bool-cases (ltb c.expires_at now)) [
    | inr f ↦ rw (f, y) refl
    | inl t ↦ rw (t, y, t) (get-filter now id st d ∙ ap (live now) (get-absent id k c st y new))
  ]
  | inr n ↦ elim (Bool-cases (ltb c.expires_at now)) [
    | inr f ↦ rw (f, n) (get-filter now id st d)
    | inl t ↦ rw (t, n) (get-filter now id st d)
  ]
]

get-remove_ne : (id j : String) (st : Store) → (j == id) ≡ false → get id (remove j st) ≡ get id st
get-remove_ne id j [] n = refl
get-remove_ne id j ((k, c) ∷ st) n =
    ground (arith, ==_iff k j, ==_iff k id, ==_iff j id, get-remove_ne id j st n)

any-set :
    (e : String × StoredChallenge) (id : String) (c : StoredChallenge) (st : Store)
    → any (key_clash e) st ≡ false
    → (e.0 == id) ≡ false
    → any (key_clash e) (set id c st) ≡ false
any-set e id c [] h n = rw n refl
any-set e id c ((k, d) ∷ st) h n = ground (arith, any-set e id c st)

Distinct-set :
    (id : String) (c : StoredChallenge) (st : Store)
    → Distinct key_clash st
    → Distinct key_clash (set id c st)
Distinct-set id c [] d = (refl, tt)
Distinct-set id c ((k, d) ∷ st) (new, rest) = elim (Bool-cases (k == id)) [
  | inl y ↦ rw y (new, rest)
  | inr n ↦ rw n (any-set (k, d) id c st new n, Distinct-set id c st rest)
]

-- Both stores hold the same challenges, but for some that have expired.
record IsLike (now : ℕ) (st st' : Store) : Type 0 where
  keys : Distinct key_clash st
  alike : (id : String) → live now (get id st) ≡ live now (get id st')

IsLike-later :
    (now later : ℕ) (st st' : Store) → now ≤ later → IsLike now st st' → IsLike later st st'
IsLike-later now later st st' le h = record {
  keys = h.keys;
  alike = λ id.
      sym (live_later now later (get id st) le)
      ∙ ap (live later) (h.alike id)
      ∙ live_later now later (get id st') le;
}

IsLike-tick :
    (now : ℕ) (st st' : Store)
    → IsLike now st st'
    → IsLike now (filter (λ e. not (ltb e.1.expires_at now)) st) st'
IsLike-tick now st st' h = record {
  keys = Distinct-filter key_clash _ st h.keys;
  alike = λ id. get-filter now id st h.keys ∙ h.alike id;
}

IsLike-set :
    (now : ℕ) (id : String) (c : StoredChallenge) (st st' : Store)
    → IsLike now st st'
    → IsLike now (set id c st) (set id c st')
IsLike-set now id c st st' h = record {
  keys = Distinct-set id c st h.keys;
  alike = λ j. elim (Bool-cases (id == j)) [
    | inl y ↦
        let same : id ≡ j = (==_iff id j).0 y in
        rw (← same, get-set_self id c st, get-set_self id c st') refl
    | inr n ↦ rw (get-set_ne j id c st n, get-set_ne j id c st' n) (h.alike j)
  ];
}

IsLike-remove :
    (now : ℕ) (id : String) (st st' : Store)
    → IsLike now st st'
    → IsLike now (remove id st) (remove id st')
IsLike-remove now id st st' h = record {
  keys = Distinct-filter key_clash _ st h.keys;
  alike = λ j. elim (Bool-cases (id == j)) [
    | inl y ↦
        let same : id ≡ j = (==_iff id j).0 y in
        rw (← same, get-remove_self id st, get-remove_self id st') refl
    | inr n ↦ rw (get-remove_ne j id st n, get-remove_ne j id st' n) (h.alike j)
  ];
}

module _ (uuid : ℕ → String) (unicode : ℕ → Text) (utf8 : Text → List ℕ) (sign : String → String)
    (ttl : ℕ) where
  verify-judged :
      (now : ℕ) (id : String) (answer : Text) (st : Store) (n : ℕ)
      → verify_challenge uuid unicode utf8 sign ttl now id answer (record { store = st; drawn = n })
        ≡ (
          (judged uuid unicode utf8 sign ttl now answer (get id st) n).0,
          record {
            store = remove id st;
            drawn = (judged uuid unicode utf8 sign ttl now answer (get id st) n).1.drawn;
          },
        )
  unfolding verify_challenge
  verify-judged now id answer st n =
      judge_store uuid unicode utf8 sign ttl now answer (get id st) (remove id st) n

  replies-verify :
      (rs : List Request) (now : ℕ) (id : String) (answer : Text) (st : Store) (n : ℕ)
      → replies uuid unicode utf8 sign ttl
          (verify now id answer ∷ rs)
          (record { store = st; drawn = n })
        ≡ (judged uuid unicode utf8 sign ttl now answer (get id st) n).0
          ∷ replies uuid unicode utf8 sign ttl rs (record {
            store = remove id st;
            drawn = (judged uuid unicode utf8 sign ttl now answer (get id st) n).1.drawn;
          })
  unfolding replies handle
  replies-verify rs now id answer st n =
      ap (λ (r : Option String × CaptchaState). r.0 ∷ replies uuid unicode utf8 sign ttl rs r.1)
        (verify-judged now id answer st n)

  replies-IsLike :
      (rs : List Request) (now n : ℕ) (st st' : Store)
      → is_forward now rs ≡ true
      → IsLike now st st'
      → replies uuid unicode utf8 sign ttl rs (record { store = st; drawn = n })
        ≡ replies uuid unicode utf8 sign ttl (without_ticks rs) (record { store = st'; drawn = n })
  unfolding replies handle generate_challenge clean_up
  replies-IsLike [] now n st st' f h = refl
  replies-IsLike (tick later ∷ rs) now n st st' f h =
      replies-IsLike rs later n _ st' (ground arith)
        (IsLike-tick later st st' (IsLike-later now later st st' (ground arith) h))
  replies-IsLike (challenge later pick ∷ rs) now n st st' f h =
      ap (λ (ts : List (Option String)). some (uuid n) ∷ ts)
        (replies-IsLike rs later (n + 1) _ _ (ground arith)
          (IsLike-set later (uuid n) _ st st' (IsLike-later now later st st' (ground arith) h)))
  replies-IsLike (verify later id answer ∷ rs) now n st st' f h =
      let h' = IsLike-later now later st st' (ground arith) h in
      let same =
        judged_alike uuid unicode utf8 sign ttl later answer (get id st) (get id st') n
          (h'.alike id) in
      let rest =
        replies-IsLike rs later
          (judged uuid unicode utf8 sign ttl later answer (get id st') n).1.drawn (remove id st)
          (remove id st') (ground arith) (IsLike-remove later id st st' h') in
      replies-verify rs later id answer st n
      ∙ rw same (
          ap
            (λ (ts : List (Option String)).
              (judged uuid unicode utf8 sign ttl later answer (get id st') n).0 ∷ ts)
            rest)
      ∙ sym (replies-verify (without_ticks rs) later id answer st' n)

-- The timer that drops expired challenges changes no answer of the service, to whatever requests and however
-- often it runs, as long as the clock does not go back.
pub replies-without_ticks :
    (uuid : ℕ → String) (unicode : ℕ → Text) (utf8 : Text → List ℕ) (sign : String → String)
    (ttl : ℕ) (rs : List Request)
    → is_forward 0 rs ≡ true
    → replies uuid unicode utf8 sign ttl rs initial
      ≡ replies uuid unicode utf8 sign ttl (without_ticks rs) initial
replies-without_ticks uuid unicode utf8 sign ttl rs f =
    replies-IsLike uuid unicode utf8 sign ttl rs 0 0 [] [] f
      (record { keys = tt; alike = λ id. refl })
