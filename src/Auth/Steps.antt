-- ===== src/Auth/Steps.antt =====
-- The steps that the operations of services/auth/src/services/auth.ts are chained from.
use micro_blog.Base.{
  ◌≡◌, refl, sym, ap, ◌∙◌, inl, inr, ◌+◌, Bool, true, Option, none, some, [], ◌∷◌, ◌++◌, any,
  Bool-cases, Failure, done, Run,
}
use micro_blog.Shared.Events.{Event, logged, send_up, send_down}
use micro_blog.Auth.Service.{
  Credential, AuthDb, credential_clash, demand, insert_credential, publish,
}

pub demand_ok :
    {A : Type 0} (a : A) (ok : A → Bool) (e : Failure) (s : AuthDb)
    → ok a ≡ true
    → demand (some a) ok e s ≡ done a s
unfolding demand
demand_ok a ok e s h = rw h refl

pub demand-eq-done :
    {A : Type 0} (a : Option A) (ok : A → Bool) (e : Failure) (s t : AuthDb) {x : A}
    → demand a ok e s ≡ done x t
    → (a ≡ some x) × (ok x ≡ true) × (s ≡ t)
unfolding demand
demand-eq-done none ok e s t h = cc
demand-eq-done (some a) ok e s t {x} h = elim (Bool-cases (ok a)) [
  | inl y ↦
      let run : ◌≡◌ {A = Run AuthDb _} (done a s) (done x t) = cc (rw y at h) in
      let same : a ≡ x = cc run in (ap (λ b. some b) same, rw same at y, cc run)
  | inr n ↦ cc (rw n at h)
]

pub insert_credential-eq-done :
    (row : Credential) (s t : AuthDb) {c : Credential}
    → insert_credential row s ≡ done c t
    → (row ≡ c) × (record s { credentials = s.credentials ++ row ∷ []; drawn = s.drawn + 1 } ≡ t)
unfolding insert_credential
insert_credential-eq-done row s t {c} h =
    elim (Bool-cases (any (credential_clash row) s.credentials)) [
      | inl y ↦ cc (rw (y, insert_credential) at h)
      | inr n ↦
          let run : ◌≡◌ {A = Run AuthDb Credential}
              (done row (record s { credentials = s.credentials ++ row ∷ []; drawn = s.drawn + 1 }))
              (done c t) =
            cc (rw (n, insert_credential) at h) in
          (cc run, cc run)
    ]

pub publish-eq-done :
    (e : Event) (s t : AuthDb) → publish e s ≡ done tt t → record s { bus = logged e s.bus } ≡ t
unfolding publish
publish-eq-done e s t h = elim (Bool-cases s.bus.up) [
  | inl u ↦
      let run : ◌≡◌ {A = Run AuthDb (Unit {0})} (done tt (record s { bus = logged e s.bus }))
          (done tt t) =
        sym (send_up (λ s. s.bus) (λ b s. record s { bus = b }) e s u) ∙ h in
      cc run
  | inr u ↦ cc (sym (send_down (λ s. s.bus) (λ b s. record s { bus = b }) e s u) ∙ h)
]
