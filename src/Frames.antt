-- ===== src/Frames.antt =====
-- What an action leaves alone, and which invariants it keeps, with one rule for each way in which the
-- services build an action.
use micro_blog.Base.{
  if◌then◌else◌, ◌≡◌, ◌⊎◌, inl, inr, refl, sym, ◌∙◌, Bool, true, false, Failure, Run, done, thrown,
  Exec, return, throw, final, gets, require, modify, ◌>>=◌,
}

-- Every run of `action` that starts where `P` holds ends where it holds, also by a throw.
pub record Keeps {ℓ} {State Value : Type ℓ} (P : State → Type ℓ) (action : Exec State Value)
    : Type ℓ where
  pub at : (before : State) → P before → P (final (action before))

-- What holds of the state at the end of a first step holds at the end of the chain.
Keeps-bind_run {ℓ} :
    {State Value Next : Type ℓ} {P : State → Type ℓ} (r : Run State Value)
    (rest : Value → Exec State Next)
    → P (final r)
    → ((v : Value) → Keeps P (rest v))
    → P (final (elim r [ done v s' ↦ rest v s' | thrown e s' ↦ thrown e s' ]))
Keeps-bind_run (done v s) rest held k = (k v).at s held
Keeps-bind_run (thrown e s) rest held k = held

pub Keeps-bind {ℓ} :
    {State Value Next : Type ℓ} {P : State → Type ℓ} (first : Exec State Value)
    (rest : Value → Exec State Next)
    → Keeps P first
    → ((v : Value) → Keeps P (rest v))
    → Keeps P (first >>= rest)
unfolding ◌>>=◌
Keeps-bind first rest k ks = record {
  at = λ s held. Keeps-bind_run (first s) rest (k.at s held) ks;
}

-- The same at one state, where more is known of the first step there.
pub bind_kept {ℓ} :
    {State Value Next : Type ℓ} {P : State → Type ℓ} (first : Exec State Value)
    (rest : Value → Exec State Next) (s : State)
    → P (final (first s))
    → ((v : Value) → Keeps P (rest v))
    → P (final ((first >>= rest) s))
unfolding ◌>>=◌
bind_kept first rest s held ks = Keeps-bind_run (first s) rest held ks

pub Keeps-either {ℓ} :
    {State Value : Type ℓ} {P : State → Type ℓ} (b : Bool) (m n : Exec State Value)
    → Keeps P m
    → Keeps P n
    → Keeps P (if b then m else n)
Keeps-either true m n k l = k
Keeps-either false m n k l = l

-- The steps that write nothing.
module _ {ℓ} {State Value : Type ℓ} {P : State → Type ℓ} where
  pub Keeps-gets : (read : State → Value) → Keeps P (gets read)
  unfolding gets
  Keeps-gets read = record { at = λ s held. held }

  pub Keeps-throw : (e : Failure) → Keeps P (throw {S = State} {A = Value} e)
  unfolding throw
  Keeps-throw e = record { at = λ s held. held }

  pub Keeps-return : (v : Value) → Keeps P (return {S = State} v)
  unfolding return
  Keeps-return v = record { at = λ s held. held }

-- The rest of a chain may use what is known of the result of its first step.
module _ {ℓ} {S A B : Type ℓ} {P : S → Type ℓ} (Q : A → Type ℓ) where
  Keeps-bind_known_run :
      (r : Run S A) (f : A → Exec S B)
      → P (final r)
      → ((a : A) (t : S) → r ≡ done a t → Q a)
      → ((a : A) → Q a → Keeps P (f a))
      → P (final (elim r [ done a s' ↦ f a s' | thrown e s' ↦ thrown e s' ]))
  Keeps-bind_known_run (done a s) f h q k = (k a (q a s refl)).at s h
  Keeps-bind_known_run (thrown e s) f h q k = h

  pub Keeps-bind_known :
      (m : Exec S A) (f : A → Exec S B)
      → Keeps P m
      → ((s : S) (a : A) (t : S) → m s ≡ done a t → Q a)
      → ((a : A) → Q a → Keeps P (f a))
      → Keeps P (m >>= f)
  unfolding ◌>>=◌
  Keeps-bind_known m f k q kf = record {
    at = λ s h. Keeps-bind_known_run (m s) f (k.at s h) (q s) kf;
  }

  -- And what the invariant tells of it.
  pub Keeps-bind_given :
      (m : Exec S A) (f : A → Exec S B)
      → Keeps P m
      → ((s : S) (a : A) (t : S) → P s → m s ≡ done a t → Q a)
      → ((a : A) → Q a → Keeps P (f a))
      → Keeps P (m >>= f)
  unfolding ◌>>=◌
  Keeps-bind_given m f k q kf = record {
    at = λ s h. Keeps-bind_known_run (m s) f (k.at s h) (λ a t e. q s a t h e) kf;
  }

module _ {ℓ} {S : Type ℓ} {P : S → Type ℓ} where
  pub Keeps-require : (b : Bool) (e : Failure) → Keeps P (require {S = S} b e)
  unfolding require
  Keeps-require true e = record { at = λ s h. h }
  Keeps-require false e = record { at = λ s h. h }

  pub Keeps-modify : (f : S → S) → ((s : S) → P s → P (f s)) → Keeps P (modify f)
  unfolding modify
  Keeps-modify f h = record { at = h }

pub ruleset keeps_rules = (Keeps-return, Keeps-throw, Keeps-gets, Keeps-bind, Keeps-require)

-- A successful chain, taken apart.
pub bind-eq-done {ℓ} :
    {S A B : Type ℓ} (m : Exec S A) (f : A → Exec S B) (s : S) {b : B} {t : S}
    → (m >>= f) s ≡ done b t
    → (a : A) × (u : S) × (m s ≡ done a u) × (f a u ≡ done b t)
unfolding ◌>>=◌
bind-eq-done m f s {b} {t} h = go (m s) refl h
  where
    go :
        (r : Run _ _)
        → m s ≡ r
        → elim r [ done a s' ↦ f a s' | thrown e s' ↦ thrown e s' ] ≡ done b t
        → (a : _) × (u : _) × (m s ≡ done a u) × (f a u ≡ done b t)
    go (done a u) e h = (a, u, e, h)
    go (thrown x u) e h = cc

pub require-eq-done {ℓ} :
    {S : Type ℓ} (b : Bool) (e : Failure) (s t : S)
    → require b e s ≡ done tt t
    → (b ≡ true) × (s ≡ t)
unfolding require
require-eq-done true e s t h = (refl, cc)
require-eq-done false e s t h = cc

-- What the first step throws, the chain throws.
pub bind-eq-thrown {ℓ} :
    {S A B : Type ℓ} (m : Exec S A) (f : A → Exec S B) (s : S) {e : Failure} {t : S}
    → m s ≡ thrown e t
    → (m >>= f) s ≡ thrown e t
unfolding ◌>>=◌
bind-eq-thrown m f s h = rw (h, ◌>>=◌) refl

pub bind-step {ℓ} :
    {S A B : Type ℓ} (m : Exec S A) (f : A → Exec S B) (s : S) {a : A} {t : S}
    → m s ≡ done a t
    → (m >>= f) s ≡ f a t
unfolding ◌>>=◌
bind-step m f s h = rw (h, ◌>>=◌) refl

-- The same with what follows from the parts, so that their names stand for nothing larger.
pub after_done {ℓ κ} :
    {S A B : Type ℓ} {C : Type κ} (m : Exec S A) (f : A → Exec S B) {s t : S} {b : B}
    → (m >>= f) s ≡ done b t
    → ((a : A) (u : S) → m s ≡ done a u → f a u ≡ done b t → C)
    → C
after_done m f {s} h k = let (a, u, e, h') = bind-eq-done m f s h in k a u e h'

pub return-eq-done {ℓ} :
    {S A : Type ℓ} (a : A) (s t : S) {b : A} → return a s ≡ done b t → (a ≡ b) × (s ≡ t)
unfolding return
return-eq-done a s t h = (cc, cc)

pub Run-cases {ℓ} :
    {S A : Type ℓ} (r : Run S A)
    → ((a : A) × (t : S) × (r ≡ done a t)) ⊎ ((e : Failure) × (t : S) × (r ≡ thrown e t))
Run-cases (done a t) = inl (a, t, refl)
Run-cases (thrown e t) = inr (e, t, refl)

-- A chain that throws does so in its first step or after it.
pub after_thrown {ℓ κ} :
    {S A B : Type ℓ} {C : Type κ} (m : Exec S A) (f : A → Exec S B) {s t : S} {e : Failure}
    → (m >>= f) s ≡ thrown e t
    → (m s ≡ thrown e t → C)
    → ((a : A) (u : S) → m s ≡ done a u → f a u ≡ thrown e t → C)
    → C
after_thrown {S} {B} m f {s} {t} {e} h k k' = elim (Run-cases (m s)) [
  | inl (a, u, d) ↦ k' a u d (sym (bind-step m f s d) ∙ h)
  | inr (x, u, d) ↦
      let q : ◌≡◌ {A = Run S B} (thrown x u) (thrown e t) = sym (bind-eq-thrown m f s d) ∙ h in
      k (cc (d, q))
]

pub gets_lem {ℓ} : {S A : Type ℓ} (f : S → A) (s : S) → gets f s ≡ done (f s) s
unfolding gets
gets_lem f s = refl

pub require_ok {ℓ} :
    {S : Type ℓ} (b : Bool) (e : Failure) (s : S) → b ≡ true → require b e s ≡ done tt s
unfolding require
require_ok true e s h = refl
require_ok false e s h = cc

pub require_not {ℓ} :
    {S : Type ℓ} (b : Bool) (e : Failure) (s : S) → b ≡ false → require b e s ≡ thrown e s
unfolding require
require_not true e s h = cc
require_not false e s h = refl

pub modify_lem {ℓ} : {S : Type ℓ} (f : S → S) (s : S) → modify f s ≡ done tt (f s)
unfolding modify
modify_lem f s = refl

pub gets-eq-done {ℓ} :
    {S A : Type ℓ} (f : S → A) (s t : S) {a : A} → gets f s ≡ done a t → (f s ≡ a) × (s ≡ t)
unfolding gets
gets-eq-done f s t h = (cc, cc)

pub modify-eq-done {ℓ} : {S : Type ℓ} (f : S → S) (s t : S) → modify f s ≡ done tt t → f s ≡ t
unfolding modify
modify-eq-done f s t h = cc
