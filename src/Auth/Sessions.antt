-- ===== src/Auth/Sessions.antt =====
-- From `register` over `login` to `refresh` of services/auth/src/services/auth.ts.
use micro_blog.Base.{
  ◌≡◌, refl, sym, ap, ◌∙◌, inl, inr, ℕ, ◌+◌, arith, String, Text, string_eq, text_eq, ◌==◌, ==_iff,
  Bool, true, false, some, List, [], ◌∷◌, ◌++◌, find, any, All, Bool-cases, done, return,
}
use micro_blog.Frames.{bind-step, gets_lem, modify_lem, require_ok}
use micro_blog.Sql.{delete}
use micro_blog.Sql.Distinct.{Distinct}
use micro_blog.Auth.Service.{
  Credential, RefreshToken, AuthDb, Primitives, claims_of, account_of, credential_clash,
  token_clash, issue_token, new_token, login, is_valid_token, refresh,
}
use micro_blog.Auth.Invariant.{IsIssued, IsWellFormed, is_user, insert_token-fits}
use micro_blog.Auth.Constraints.{ended-IsWellFormed}
use micro_blog.Auth.Steps.{demand_ok}

-- The row that one column finds is found by every column that is unique.
pub find_unique :
    (p q : Credential → Bool) (cs : List Credential) {c : Credential}
    → Distinct credential_clash cs
    → find p cs ≡ some c
    → q c ≡ true
    → ((d : Credential) → q d ≡ true → credential_clash d c ≡ true)
    → find q cs ≡ some c
find_unique p q [] d e y h = cc
find_unique p q (x ∷ cs) {c} (k, d) e y h = elim (Bool-cases (p x)) [
  | inl y' ↦
      let same : x ≡ c = cc (rw y' at e) in
      let kept : q x ≡ true = ap q same ∙ y in rw kept (ap (λ u. some u) same)
  | inr n ↦ ground (arith, n, h x, no_clash cs k, find_unique p q cs {c = c} d)
]
  where
    no_clash :
        (ds : List Credential)
        → any (credential_clash x) ds ≡ false
        → find p ds ≡ some c
        → credential_clash x c ≡ false
    no_clash [] h e = cc
    no_clash (d ∷ ds) h e = ground (arith, no_clash ds)

pub find_by_id :
    (p : Credential → Bool) (cs : List Credential) {c : Credential}
    → Distinct credential_clash cs
    → find p cs ≡ some c
    → find (is_user c.id) cs ≡ some c
find_by_id p cs {c} d e =
    find_unique p (is_user c.id) cs d e ((==_iff c.id c.id).1 refl) (λ d y. ground arith)

pub any_of_find :
    (p : Credential → Bool) (cs : List Credential) {c : Credential}
    → find p cs ≡ some c
    → any p cs ≡ true
any_of_find p [] e = cc
any_of_find p (x ∷ cs) {c} e = ground (arith, any_of_find p cs {c = c})

module _ (prim : Primitives) (fresh_id : (j k : ℕ) → prim.uuid j ≡ prim.uuid k → j ≡ k)
    (fresh_token : (j k : ℕ) → prim.hmac (prim.secret j) ≡ prim.hmac (prim.secret k) → j ≡ k) where
  pub any-clash_of_issued :
      (now n : ℕ) (user_id : String) (ts : List RefreshToken)
      → All (IsIssued prim n) ts
      → any (token_clash (new_token prim now user_id n)) ts ≡ false
  any-clash_of_issued now n user_id [] h = refl
  any-clash_of_issued now n user_id (t ∷ ts) ((k, lt, i, d), h) = ground (
    arith,
    any-clash_of_issued now n user_id ts h,
    ==_iff (prim.uuid n) t.id,
    ==_iff (prim.hmac (prim.secret n)) t.token,
    (λ (e : prim.uuid n ≡ t.id). fresh_id k n (i ∙ sym e)),
    (λ (e : prim.hmac (prim.secret n) ≡ t.token). fresh_token k n (d ∙ sym e)),
  )

  -- The end of `login` and `refresh` succeeds for whoever has a credential.
  issue_token_ok :
      (now : ℕ) (user_id : String) (s : AuthDb)
      → IsWellFormed prim s
      → any (is_user user_id) s.credentials ≡ true
      → issue_token prim now user_id s
        ≡ done (prim.secret s.drawn) (record s {
          refresh_tokens = s.refresh_tokens ++ new_token prim now user_id s.drawn ∷ [];
          drawn = s.drawn + 1;
        })
  unfolding issue_token return
  issue_token_ok now user_id s well u =
      bind-step _ _ s (gets_lem (λ (s : AuthDb). s.drawn) s)
      ∙ bind-step _ _ s (
          insert_token-fits (new_token prim now user_id s.drawn) s u
            (any-clash_of_issued now s.drawn user_id s.refresh_tokens well.known))

  pub login_ok :
      (now : ℕ) (email password : Text) (s : AuthDb) (c : Credential)
      → IsWellFormed prim s
      → find (λ d. d.email == email) s.credentials ≡ some c
      → c.active ≡ true
      → prim.compare password c.password_hash ≡ true
      → login prim now email password s
        ≡ done
            (record {
              access_token = prim.sign now (claims_of c);
              refresh_token = prim.secret s.drawn;
              user = account_of c;
            })
            (record s {
              refresh_tokens = s.refresh_tokens ++ new_token prim now c.id s.drawn ∷ [];
              drawn = s.drawn + 1;
            })
  unfolding login return
  login_ok now email password s c well found active compared =
      let there : any (is_user c.id) s.credentials ≡ true =
        any_of_find (is_user c.id) s.credentials (find_by_id _ s.credentials well.accounts found) in
      bind-step _ _ s (gets_lem _ s)
      ∙ rw found (
          bind-step _ _ s (demand_ok c _ _ s active)
          ∙ bind-step _ _ s (require_ok _ _ s compared)
          ∙ bind-step _ _ s (issue_token_ok now c.id s well there))

  pub refresh_ok :
      (now : ℕ) (raw : String) (s : AuthDb) (row : RefreshToken) (c : Credential)
      → IsWellFormed prim s
      → find (is_valid_token prim now raw) s.refresh_tokens ≡ some row
      → find (is_user row.user_id) s.credentials ≡ some c
      → c.active ≡ true
      → refresh prim now raw s
        ≡ done
            (record {
              access_token = prim.sign now (claims_of c);
              refresh_token = prim.secret s.drawn;
            })
            (record s {
              refresh_tokens =
                  delete (λ t. t.id == row.id) s.refresh_tokens
                  ++ new_token prim now c.id s.drawn ∷ [];
              drawn = s.drawn + 1;
            })
  unfolding refresh return
  refresh_ok now raw s row c well found user active =
      let left : AuthDb = record s {
        refresh_tokens = delete (λ t. t.id == row.id) s.refresh_tokens;
      } in
      let kept : IsWellFormed prim left = ended-IsWellFormed prim (λ t. t.id == row.id) s well in
      let there : any (is_user c.id) s.credentials ≡ true =
        any_of_find (is_user c.id) s.credentials (find_by_id _ s.credentials well.accounts user) in
      bind-step _ _ s (gets_lem _ s)
      ∙ rw found (
          bind-step _ _ s (demand_ok row _ _ s refl)
          ∙ bind-step _ _ s (gets_lem _ s)
          ∙ rw user (
              bind-step _ _ s (demand_ok c _ _ s active)
              ∙ bind-step _ _ s (modify_lem _ s)
              ∙ bind-step _ _ left (issue_token_ok now c.id left kept there)))
