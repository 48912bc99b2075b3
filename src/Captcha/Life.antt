-- ===== src/Captcha/Life.antt =====
-- The states that the captcha service can reach, and the life of a challenge in them.
use micro_blog.Base.{
  ◌≡◌, ◌⊎◌, inl, inr, refl, sym, ◌∙◌, ℕ, ◌+◌, ◌<◌, arith, String, Text, string_eq, ◌==◌, ==_iff,
  ==_refl, ==-eq-false, Bool, false, Option, none, some, List, [], ◌∷◌, filter, Bool-cases,
}
use micro_blog.Captcha.Store.{
  StoredChallenge, Store, CaptchaState, get, set, remove, generate_challenge, judge,
  verify_challenge, clean_up,
}

pub get-set_self : (id : String) (c : StoredChallenge) (st : Store) → get id (set id c st) ≡ some c
get-set_self id c [] = rw (==_refl id) refl
get-set_self id c ((k, d) ∷ st) = elim (Bool-cases (k == id)) [
  | inl e ↦ rw (e, e) refl
  | inr e ↦ rw (e, e) (get-set_self id c st)
]

pub get-set_ne :
    (id u : String) (c : StoredChallenge) (st : Store)
    → (u == id) ≡ false
    → get id (set u c st) ≡ get id st
get-set_ne id u c [] h = rw h refl
get-set_ne id u c ((k, d) ∷ st) h =
    ground (arith, get-set_ne id u c st h, ==_iff k u, ==_iff k id, ==_iff u id)

pub get-filter-none :
    (id : String) (p : String × StoredChallenge → Bool) (st : Store)
    → get id st ≡ none
    → get id (filter p st) ≡ none
get-filter-none id p [] h = refl
get-filter-none id p ((k, c) ∷ st) h = ground (arith, get-filter-none id p st)

pub get-remove_self : (id : String) (st : Store) → get id (remove id st) ≡ none
get-remove_self id [] = refl
get-remove_self id ((k, c) ∷ st) = ground (arith, get-remove_self id st)

-- What the service does in one go: a request, or a tick of the timer.
pub data Request : Type 0 where
  challenge : (now : ℕ) (pick : ℕ → ℕ) → Request
  verify : (now : ℕ) (id : String) (answer : Text) → Request
  tick : (now : ℕ) → Request

module _ (uuid : ℕ → String) (unicode : ℕ → Text) (utf8 : Text → List ℕ) (sign : String → String)
    (ttl : ℕ) where
  unfoldable pub handle : Request → CaptchaState → CaptchaState
  handle (challenge now pick) s = (generate_challenge uuid unicode utf8 sign ttl now pick s).1
  handle (verify now id answer) s = (verify_challenge uuid unicode utf8 sign ttl now id answer s).1
  handle (tick now) s = clean_up now s

  unfoldable pub handle_all : List Request → CaptchaState → CaptchaState
  unfolding handle
  handle_all [] s = s
  handle_all (r ∷ rs) s = handle_all rs (handle r s)

abbrev pub initial : CaptchaState
initial = record { store = []; drawn = 0 }

abbrev pub IsDrawn : (ℕ → String) → ℕ → String → Type 0
IsDrawn uuid n id = (k : ℕ) × (k < n) × (uuid k ≡ id)

-- A challenge that can be found has an identifier that was drawn.
abbrev IsKnown : (ℕ → String) → CaptchaState → Type 0
IsKnown uuid s = (id : String) → (get id s.store ≡ none) ⊎ IsDrawn uuid s.drawn id

-- The identifier was drawn, and there is no challenge for it any more.
abbrev IsGone : (ℕ → String) → String → CaptchaState → Type 0
IsGone uuid id s = (get id s.store ≡ none) × IsDrawn uuid s.drawn id

IsDrawn-suc :
    (uuid : ℕ → String) (n : ℕ) (id : String) → IsDrawn uuid n id → IsDrawn uuid (n + 1) id
IsDrawn-suc uuid n id (k, lt, e) = (k, omega arith, e)

-- What judging a challenge does to the state: at most it draws an identifier.
judge-cases :
    (uuid : ℕ → String) (unicode : ℕ → Text) (utf8 : Text → List ℕ) (sign : String → String)
    (ttl now : ℕ) (answer : Text) (c : Option StoredChallenge) (s : CaptchaState)
    → ((judge uuid unicode utf8 sign ttl now answer c s).1 ≡ s)
      ⊎ ((judge uuid unicode utf8 sign ttl now answer c s).1 ≡ record s { drawn = s.drawn + 1 })
unfolding judge
judge-cases uuid unicode utf8 sign ttl now answer none s = inl refl
judge-cases uuid unicode utf8 sign ttl now answer (some c) s = ground arith

module _ (uuid : ℕ → String) (injective : (m n : ℕ) → uuid m ≡ uuid n → m ≡ n) (unicode : ℕ → Text)
    (utf8 : Text → List ℕ) (sign : String → String) (ttl : ℕ) where
  not_next : (n : ℕ) (id : String) → IsDrawn uuid n id → (uuid n == id) ≡ false
  not_next n id (k, lt, e) =
      ==-eq-false (uuid n) id (λ h. let i : k ≡ n = injective k n (e ∙ sym h) in omega arith)

  handle-IsGone :
      (id : String) (r : Request) (s : CaptchaState)
      → IsGone uuid id s
      → IsGone uuid id (handle uuid unicode utf8 sign ttl r s)
  unfolding handle generate_challenge verify_challenge clean_up
  handle-IsGone id (challenge now pick) s (g, d) =
      (get-set_ne id _ _ s.store (not_next s.drawn id d) ∙ g, IsDrawn-suc uuid s.drawn id d)
  handle-IsGone id (tick now) s (g, d) = (get-filter-none id _ s.store g, d)
  handle-IsGone id (verify now j answer) s (g, d) =
      let t : CaptchaState = record s { store = remove j s.store } in
      let g' = get-filter-none id _ s.store g in
      elim (judge-cases uuid unicode utf8 sign ttl now answer (get j s.store) t) [
        | inl e ↦ rw e (g', d)
        | inr e ↦ rw e (g', IsDrawn-suc uuid s.drawn id d)
      ]

  handle_all-IsGone :
      (id : String) (rs : List Request) (s : CaptchaState)
      → IsGone uuid id s
      → IsGone uuid id (handle_all uuid unicode utf8 sign ttl rs s)
  unfolding handle_all
  handle_all-IsGone id [] s h = h
  handle_all-IsGone id (r ∷ rs) s h = handle_all-IsGone id rs _ (handle-IsGone id r s h)

  handle-IsKnown :
      (r : Request) (s : CaptchaState)
      → IsKnown uuid s
      → IsKnown uuid (handle uuid unicode utf8 sign ttl r s)
  unfolding handle generate_challenge verify_challenge clean_up
  handle-IsKnown (challenge now pick) s h id = elim (Bool-cases (uuid s.drawn == id)) [
    | inl e ↦ inr (s.drawn, omega arith, (==_iff (uuid s.drawn) id).0 e)
    | inr e ↦ elim (h id) [
      | inl g ↦ inl (get-set_ne id _ _ s.store e ∙ g)
      | inr d ↦ inr (IsDrawn-suc uuid s.drawn id d)
    ]
  ]
  handle-IsKnown (tick now) s h id = elim (h id) [
    | inl g ↦ inl (get-filter-none id _ s.store g)
    | inr d ↦ inr d
  ]
  handle-IsKnown (verify now j answer) s h id =
      let t : CaptchaState = record s { store = remove j s.store } in
      let judged = judge-cases uuid unicode utf8 sign ttl now answer (get j s.store) t in
      elim (h id) [
        | inl g ↦ inl (elim judged [
          | inl e ↦ rw e (get-filter-none id _ s.store g)
          | inr e ↦ rw e (get-filter-none id _ s.store g)
        ])
        | inr d ↦
            inr (elim judged [ inl e ↦ rw e d | inr e ↦ rw e (IsDrawn-suc uuid s.drawn id d) ])
      ]

  handle_all-IsKnown :
      (rs : List Request) (s : CaptchaState)
      → IsKnown uuid s
      → IsKnown uuid (handle_all uuid unicode utf8 sign ttl rs s)
  unfolding handle_all
  handle_all-IsKnown [] s h = h
  handle_all-IsKnown (r ∷ rs) s h = handle_all-IsKnown rs _ (handle-IsKnown r s h)

  verified-IsGone :
      (now : ℕ) (id : String) (answer : Text) (s : CaptchaState) (token : String)
      → IsKnown uuid s
      → (verify_challenge uuid unicode utf8 sign ttl now id answer s).0 ≡ some token
      → IsGone uuid id (verify_challenge uuid unicode utf8 sign ttl now id answer s).1
  unfolding verify_challenge judge
  verified-IsGone now id answer s token known h =
      let t : CaptchaState = record s { store = remove id s.store } in
      let judged = judge-cases uuid unicode utf8 sign ttl now answer (get id s.store) t in
      elim (known id) [
        | inl g ↦ let h' : none ≡ some token = rw g at h in cc
        | inr d ↦ elim judged [
          | inl e ↦ rw e (get-remove_self id s.store, d)
          | inr e ↦ rw e (get-remove_self id s.store, IsDrawn-suc uuid s.drawn id d)
        ]
      ]

  gone_refused :
      (now : ℕ) (id : String) (answer : Text) (s : CaptchaState)
      → get id s.store ≡ none
      → (verify_challenge uuid unicode utf8 sign ttl now id answer s).0 ≡ none
  unfolding verify_challenge judge
  gone_refused now id answer s g = rw g refl

-- A challenge that has earned a token earns no second one, whatever happens before and after; the
-- identifiers drawn are assumed to be distinct.
pub verify_challenge_once :
    (uuid : ℕ → String) (injective : (m n : ℕ) → uuid m ≡ uuid n → m ≡ n) (unicode : ℕ → Text)
    (utf8 : Text → List ℕ) (sign : String → String) (ttl : ℕ) (before after : List Request)
    (now : ℕ) (id : String) (answer : Text) (token : String) (s : CaptchaState)
    → handle_all uuid unicode utf8 sign ttl before initial ≡ s
    → (verify_challenge uuid unicode utf8 sign ttl now id answer s).0 ≡ some token
    → (later : ℕ) (again : Text)
    → (verify_challenge uuid unicode utf8 sign ttl later id again (
        handle_all uuid unicode utf8 sign ttl after
          (verify_challenge uuid unicode utf8 sign ttl now id answer s).1)).0
      ≡ none
verify_challenge_once uuid injective unicode utf8 sign ttl before after now id answer token s r h
      later again =
    let known : IsKnown uuid s =
      rw⁻¹ r
        (handle_all-IsKnown uuid injective unicode utf8 sign ttl before initial (λ i. inl refl)) in
    let gone = verified-IsGone uuid injective unicode utf8 sign ttl now id answer s token known h in
    gone_refused uuid injective unicode utf8 sign ttl later id again _
      (handle_all-IsGone uuid injective unicode utf8 sign ttl id after _ gone).0
