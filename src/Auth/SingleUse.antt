-- ===== src/Auth/SingleUse.antt =====
-- How often a captcha token is accepted: before the second in which it expires, and in it.
use micro_blog.Base.{
  ◌≡◌, refl, sym, ◌∙◌, inl, inr, ℕ, ◌+◌, ◌<◌, ◌≤◌, arith, String, string_eq, ◌==◌, ==_refl, ==_iff,
  nat_eq, Bool, true, false, not, ◌&&◌, ◌||◌, Option, some, List, [], ◌∷◌, ◌++◌, any, truthy,
  or_else, All, Bool-cases, Option-cases, done, thrown, final,
}
use micro_blog.Shared.Errors.{forbidden}
use micro_blog.Auth.Captcha.{
  Payload, UsedJtis, has, prune, is_expired, spend, check_payload, verify_captcha_token,
}

-- A request with a captcha token, at a time.
pub record Attempt : Type 0 where
  pub now : ℕ
  pub token : Option String

module _ (decode : String → Option Payload) where
  unfoldable pub attempt_all : List Attempt → UsedJtis → UsedJtis
  attempt_all [] used = used
  attempt_all (a ∷ rest) used =
      attempt_all rest (final (verify_captcha_token decode true a.now a.token used))

-- The entry that a token with this `jti` and this expiry leaves.
abbrev pub is_entry : String → ℕ → String × ℕ → Bool
is_entry jti exp e = e.0 == jti && e.1 == exp

module _ (jti : String) (exp : ℕ) where
  prune-kept :
      (now : ℕ) (used : UsedJtis)
      → now < exp
      → any (is_entry jti exp) used ≡ true
      → any (is_entry jti exp) (prune now used) ≡ true
  prune-kept now [] lt h = h
  prune-kept now (e ∷ used) lt h = ground (arith, prune-kept now used lt, ==_iff e.1 exp)

  kept_append :
      (used more : UsedJtis)
      → any (is_entry jti exp) used ≡ true
      → any (is_entry jti exp) (used ++ more) ≡ true
  kept_append [] more h = cc
  kept_append (e ∷ used) more h = ground (arith, kept_append used more)

  has_entry : (used : UsedJtis) → any (is_entry jti exp) used ≡ true → has jti used ≡ true
  has_entry [] h = h
  has_entry (e ∷ used) h = ground (arith, has_entry used)

  last_entry : (used : UsedJtis) → any (is_entry jti exp) (used ++ (jti, exp) ∷ []) ≡ true
  last_entry [] = rw (==_refl jti, ==_refl exp) refl
  last_entry (e ∷ used) = ground (arith, last_entry used)

  spend-kept :
      (now : ℕ) (other : String) (until : Option ℕ) (used : UsedJtis)
      → now < exp
      → any (is_entry jti exp) used ≡ true
      → any (is_entry jti exp) (final (spend now other until used)) ≡ true
  unfolding spend
  spend-kept now other until used lt h =
      let h' = prune-kept now used lt h in
      elim (Bool-cases (has other (prune now used))) [
        | inl e ↦ rw (e, final) h'
        | inr e ↦
            rw (e, final)
              (kept_append (prune now used) ((other, or_else until (now + 300)) ∷ []) h')
      ]

  check_payload-kept :
      (now : ℕ) (payload : Payload) (used : UsedJtis)
      → now < exp
      → any (is_entry jti exp) used ≡ true
      → any (is_entry jti exp) (final (check_payload now payload used)) ≡ true
  unfolding check_payload
  check_payload-kept now payload used lt h =
      let k = spend-kept now (or_else payload.jti "") payload.exp used lt h in
      elim (Bool-cases (not payload.v || is_expired now payload.exp)) [
        | inl e ↦ rw (e, final) h
        | inr e ↦ elim (Bool-cases (truthy payload.jti)) [
          | inl t ↦ rw (e, t) k
          | inr t ↦ rw (e, t, final) h
        ]
      ]

  verify-kept :
      (decode : String → Option Payload) (now : ℕ) (token : Option String) (used : UsedJtis)
      → now < exp
      → any (is_entry jti exp) used ≡ true
      → any (is_entry jti exp) (final (verify_captcha_token decode true now token used)) ≡ true
  unfolding verify_captcha_token
  verify-kept decode now token used lt h = elim (Bool-cases (truthy token)) [
    | inr t ↦ rw (t, final) h
    | inl t ↦ elim (Option-cases (decode (or_else token ""))) [
      | inl n ↦ rw (t, n, final) h
      | inr (payload, e) ↦ rw (t, e) (check_payload-kept now payload used lt h)
    ]
  ]

  attempt_all-kept :
      (decode : String → Option Payload) (attempts : List Attempt) (used : UsedJtis)
      → All (λ a. a.now < exp) attempts
      → any (is_entry jti exp) used ≡ true
      → any (is_entry jti exp) (attempt_all decode attempts used) ≡ true
  unfolding attempt_all
  attempt_all-kept decode [] used lt h = h
  attempt_all-kept decode (a ∷ rest) used (lt, l) h =
      attempt_all-kept decode rest _ l (verify-kept decode a.now a.token used lt h)

-- A token whose payload is known.
pub record IsToken (decode : String → Option Payload) (raw jti : String) (exp : ℕ) : Type 0 where
  pub given : truthy (some raw) ≡ true
  pub decoded : decode raw ≡ some (record { v = true; jti = some jti; exp = some exp })
  pub named : truthy (some jti) ≡ true

module _ (decode : String → Option Payload) (raw jti : String) (exp now : ℕ)
    (t : IsToken decode raw jti exp) where
  verify-eq-spend :
      (used : UsedJtis)
      → now ≤ exp
      → verify_captcha_token decode true now (some raw) used ≡ spend now jti (some exp) used
  unfolding verify_captcha_token check_payload
  verify-eq-spend used le =
      let valid : is_expired now (some exp) ≡ false = ground arith in
      rw (t.given, t.decoded, valid, t.named) refl

spend-eq-done :
    (now : ℕ) (jti : String) (exp : ℕ) (used u : UsedJtis)
    → spend now jti (some exp) used ≡ done tt u
    → (has jti (prune now used) ≡ false) × (u ≡ prune now used ++ (jti, exp) ∷ [])
unfolding spend
spend-eq-done now jti exp used u h = elim (Bool-cases (has jti (prune now used))) [
  | inl e ↦
      let h' : thrown (forbidden "Captcha token already used") (prune now used) ≡ done tt u =
        rw e at h in
      cc
  | inr e ↦ let h' : done tt (prune now used ++ (jti, exp) ∷ []) ≡ done tt u = rw e at h in (e, cc)
]

spend_refused :
    (now : ℕ) (jti : String) (exp : Option ℕ) (used : UsedJtis)
    → has jti (prune now used) ≡ true
    → spend now jti exp used ≡ thrown (forbidden "Captcha token already used") (prune now used)
unfolding spend
spend_refused now jti exp used h = rw h refl

spend_accepted :
    (now : ℕ) (jti : String) (exp : ℕ) (used : UsedJtis)
    → has jti (prune now used) ≡ false
    → spend now jti (some exp) used ≡ done tt (prune now used ++ (jti, exp) ∷ [])
unfolding spend
spend_accepted now jti exp used h = rw h refl

-- A captcha token that was accepted is refused as used at every later attempt before the second in which
-- it expires, whatever other attempts were made in between, all of them before that second too.
pub verify_captcha_token_once :
    (decode : String → Option Payload) (raw jti : String) (exp now : ℕ) (used u : UsedJtis)
    → IsToken decode raw jti exp
    → now < exp
    → verify_captcha_token decode true now (some raw) used ≡ done tt u
    → (attempts : List Attempt) (later : ℕ) → All (λ a. a.now < exp) attempts
    → later < exp
    → verify_captcha_token decode true later (some raw) (attempt_all decode attempts u)
      ≡ thrown
          (forbidden "Captcha token already used")
          (prune later (attempt_all decode attempts u))
verify_captcha_token_once decode raw jti exp now used u t lt h attempts later before lt' =
    let (fresh, e) =
      spend-eq-done now jti exp used u
        (sym (verify-eq-spend decode raw jti exp now t used (omega arith)) ∙ h) in
    let left : any (is_entry jti exp) u ≡ true = rw e (last_entry jti exp (prune now used)) in
    let kept = attempt_all-kept jti exp decode attempts u before left in
    verify-eq-spend decode raw jti exp later t _ (omega arith)
    ∙ spend_refused later jti (some exp) _
        (has_entry jti exp _ (prune-kept jti exp later _ lt' kept))

prune-last :
    (jti : String) (exp : ℕ) (used : UsedJtis)
    → has jti used ≡ false
    → has jti (prune exp (used ++ (jti, exp) ∷ [])) ≡ false
prune-last jti exp [] h = ground arith
prune-last jti exp (e ∷ used) h = ground (arith, prune-last jti exp used)

-- A captcha token that was accepted before the second in which it expires is accepted once more in that
-- second: the entry that would refuse it is pruned while the token still counts as valid.
pub verify_captcha_token_twice :
    (decode : String → Option Payload) (raw jti : String) (exp now : ℕ) (used u : UsedJtis)
    → IsToken decode raw jti exp
    → now < exp
    → verify_captcha_token decode true now (some raw) used ≡ done tt u
    → verify_captcha_token decode true exp (some raw) u ≡ done tt (prune exp u ++ (jti, exp) ∷ [])
verify_captcha_token_twice decode raw jti exp now used u t lt h =
    let (fresh, e) =
      spend-eq-done now jti exp used u
        (sym (verify-eq-spend decode raw jti exp now t used (omega arith)) ∙ h) in
    verify-eq-spend decode raw jti exp exp t u (omega arith)
    ∙ spend_accepted exp jti exp u (rw e (prune-last jti exp (prune now used) fresh))
