-- ===== src/Auth/Invariant.antt =====
-- The constraints of the tables of the auth service in the states that it reaches.
use micro_blog.Base.{
  ◌≡◌, refl, ◌∙◌, ◌⊎◌, inl, inr, ℕ, ◌+◌, ◌<◌, arith, String, string_eq, text_eq, ◌==◌, ==_iff, Bool,
  true, false, List, [], ◌∷◌, ◌++◌, any, All, All-imp, All-append, Bool-cases, final, done, thrown,
  other_error, return,
}
use micro_blog.Frames.{Keeps, bind-step, bind-eq-thrown, gets_lem}
use micro_blog.Sql.Distinct.{Distinct, Distinct-append}
use micro_blog.Auth.Service.{
  Credential, RefreshToken, AuthDb, Primitives, credential_clash, token_clash, insert_credential,
  insert_token, new_token, issue_token,
}

-- A digest that was stored before.
abbrev pub IsDrawn : Primitives → ℕ → String → Type 0
IsDrawn prim n digest = (k : ℕ) × (k < n) × (prim.hmac (prim.secret k) ≡ digest)

-- A row whose identifier and digest were drawn together.
abbrev pub IsIssued : Primitives → ℕ → RefreshToken → Type 0
IsIssued prim n t = (k : ℕ) × (k < n) × (prim.uuid k ≡ t.id) × (prim.hmac (prim.secret k) ≡ t.token)

abbrev pub is_user : String → Credential → Bool
is_user user_id c = c.id == user_id

pub record IsWellFormed (prim : Primitives) (s : AuthDb) : Type 0 where
  pub accounts : Distinct credential_clash s.credentials
  pub sessions : Distinct token_clash s.refresh_tokens
  pub owned : All (λ t. any (is_user t.user_id) s.credentials ≡ true) s.refresh_tokens
  pub known : All (IsIssued prim s.drawn) s.refresh_tokens

pub credential_clash_comm : (c d : Credential) → credential_clash c d ≡ credential_clash d c
credential_clash_comm c d = ground (
  arith,
  ==_iff c.id d.id,
  ==_iff d.id c.id,
  ==_iff c.email d.email,
  ==_iff d.email c.email,
  ==_iff c.username d.username,
  ==_iff d.username c.username,
)

token_clash_comm : (t u : RefreshToken) → token_clash t u ≡ token_clash u t
token_clash_comm t u =
    ground
      (arith, ==_iff t.id u.id, ==_iff u.id t.id, ==_iff t.token u.token, ==_iff u.token t.token)

any_append :
    (p : Credential → Bool) (cs : List Credential) (c : Credential)
    → any p cs ≡ true
    → any p (cs ++ c ∷ []) ≡ true
any_append p [] c h = cc
any_append p (d ∷ cs) c h = ground (arith, any_append p cs c)

pub IsDrawn-suc :
    (prim : Primitives) (n : ℕ) (digest : String)
    → IsDrawn prim n digest
    → IsDrawn prim (n + 1) digest
IsDrawn-suc prim n digest (k, lt, e) = (k, omega arith, e)

pub IsIssued-suc :
    (prim : Primitives) (n : ℕ) (t : RefreshToken) → IsIssued prim n t → IsIssued prim (n + 1) t
IsIssued-suc prim n t (k, lt, i, d) = (k, omega arith, i, d)

insert_token-unowned :
    (row : RefreshToken) (s : AuthDb)
    → any (is_user row.user_id) s.credentials ≡ false
    → insert_token row s ≡ thrown other_error s
unfolding insert_token
insert_token-unowned row s h = rw (h, insert_token) refl

insert_token-clash :
    (row : RefreshToken) (s : AuthDb)
    → any (token_clash row) s.refresh_tokens ≡ true
    → insert_token row s ≡ thrown other_error s
unfolding insert_token
insert_token-clash row s h = elim (Bool-cases (any (is_user row.user_id) s.credentials)) [
  | inl u ↦ rw (u, h, insert_token) refl
  | inr n ↦ rw (n, insert_token) refl
]

pub insert_token-fits :
    (row : RefreshToken) (s : AuthDb)
    → any (is_user row.user_id) s.credentials ≡ true
    → any (token_clash row) s.refresh_tokens ≡ false
    → insert_token row s
      ≡ done tt (record s { refresh_tokens = s.refresh_tokens ++ row ∷ []; drawn = s.drawn + 1 })
unfolding insert_token
insert_token-fits row s u h = rw (u, h, insert_token) refl

-- The end of `login` and `refresh` adds the new row, or changes nothing.
pub issue_token-cases :
    (prim : Primitives) (now : ℕ) (user_id : String) (s : AuthDb)
    → (issue_token prim now user_id s ≡ thrown other_error s)
      ⊎ ((issue_token prim now user_id s
            ≡ done (prim.secret s.drawn) (record s {
              refresh_tokens = s.refresh_tokens ++ new_token prim now user_id s.drawn ∷ [];
              drawn = s.drawn + 1;
            }))
          × (any (is_user user_id) s.credentials ≡ true)
          × (any (token_clash (new_token prim now user_id s.drawn)) s.refresh_tokens ≡ false))
unfolding issue_token return
issue_token-cases prim now user_id s =
    let row = new_token prim now user_id s.drawn in
    let read = bind-step _ _ s (gets_lem (λ (s : AuthDb). s.drawn) s) in
    elim (Bool-cases (any (is_user user_id) s.credentials)) [
      | inr n ↦ inl (read ∙ bind-eq-thrown _ _ s (insert_token-unowned row s n))
      | inl u ↦ elim (Bool-cases (any (token_clash row) s.refresh_tokens)) [
        | inl c ↦ inl (read ∙ bind-eq-thrown _ _ s (insert_token-clash row s c))
        | inr c ↦ inr (read ∙ bind-step _ _ s (insert_token-fits row s u c), u, c)
      ]
    ]

module _ (prim : Primitives) where
  pub insert_credential-IsWellFormed :
      (row : Credential) → Keeps (IsWellFormed prim) (insert_credential row)
  unfolding insert_credential
  insert_credential-IsWellFormed row = record {
    at = λ s h. elim (Bool-cases (any (credential_clash row) s.credentials)) [
      | inl e ↦ rw (e, insert_credential, final) h
      | inr e ↦
          rw (e, insert_credential, final)
            (record {
              accounts =
                  Distinct-append credential_clash credential_clash_comm row s.credentials
                    h.accounts e;
              sessions = h.sessions;
              owned =
                  All-imp _ _ (λ t. any_append (is_user t.user_id) s.credentials row)
                    s.refresh_tokens h.owned;
              known = All-imp _ _ (IsIssued-suc prim s.drawn) s.refresh_tokens h.known;
            })
    ];
  }

  pub issue_token-IsWellFormed :
      (now : ℕ) (user_id : String) → Keeps (IsWellFormed prim) (issue_token prim now user_id)
  issue_token-IsWellFormed now user_id = record {
    at = λ s h. elim (issue_token-cases prim now user_id s) [
      | inl e ↦ rw e h
      | inr (e, u, c) ↦
          let row = new_token prim now user_id s.drawn in
          rw e (record {
            accounts = h.accounts;
            sessions =
                Distinct-append token_clash token_clash_comm row s.refresh_tokens h.sessions c;
            owned = All-append _ s.refresh_tokens (row ∷ []) h.owned (u, tt);
            known =
                All-append _ s.refresh_tokens (row ∷ [])
                  (All-imp _ _ (IsIssued-suc prim s.drawn) s.refresh_tokens h.known)
                  ((s.drawn, omega arith, refl, refl), tt);
          })
    ];
  }
