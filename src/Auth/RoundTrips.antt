-- ===== src/Auth/RoundTrips.antt =====
-- Round trips over `register`, `login` and `refresh` of services/auth/src/services/auth.ts.
use micro_blog.Base.{
  ◌≡◌, refl, sym, ap, ◌∙◌, ℕ, ◌+◌, ◌<◌, arith, String, Text, string_eq, text_eq, ◌==◌, ==_iff, true,
  false, not, ◌||◌, none, some, List, [], ◌∷◌, ◌++◌, find, any, final, done, Run, gets,
}
use micro_blog.Frames.{after_done, require-eq-done, return-eq-done, gets-eq-done}
use micro_blog.Sql.Laws.{find-append, find-none_of_any}
use micro_blog.Auth.Service.{
  Credential, RefreshToken, AuthDb, Primitives, claims_of, Account, account_of, Session, Renewal,
  token_clash, new_credential, register, new_token, login, is_valid_token, refresh,
}
use micro_blog.Auth.Requests.{register_user, log_in, handle, handle-kept}
use micro_blog.Auth.Invariant.{IsWellFormed}
use micro_blog.Auth.Constraints.{IsWellFormed-IsStable}
use micro_blog.Auth.Steps.{demand-eq-done, insert_credential-eq-done, publish-eq-done}
use micro_blog.Auth.Sessions.{find_by_id, login_ok, refresh_ok, any-clash_of_issued}

-- What a registration that succeeds has found and done.
pub register-eq-done :
    (prim : Primitives) (now : ℕ) (username email password : Text) (s : AuthDb) {a : Account}
    {t : AuthDb}
    → register prim now username email password s ≡ done a t
    → let row = new_credential prim now username email password "user" s.drawn in
      (any (λ c. c.email == email || c.username == username) s.credentials ≡ false)
      × (account_of row ≡ a)
      × (s.credentials ++ row ∷ [] ≡ t.credentials)
unfolding register
register-eq-done prim now u e p s {a} {t} h = after_done (gets _) _ h λ taken s1 e1 h1.
    after_done _ _ h1 λ _ s2 e2 h2. after_done (gets _) _ h2 λ n s3 e3 h3.
      after_done _ _ h3 λ c s4 e4 h4. after_done _ _ h4 λ _ s5 e5 h5.
        let (f1, q1) = gets-eq-done _ s s1 e1 in
        let (free, q2) = require-eq-done (not taken) _ s1 s2 e2 in
        let (f3, q3) = gets-eq-done _ s2 s3 e3 in
        let (f4, q4) = insert_credential-eq-done _ s3 s4 e4 in
        let q5 = publish-eq-done _ s4 s5 e5 in
        let (f6, q6) = return-eq-done _ s5 t h5 in
        let same : s3 ≡ s = sym (q1 ∙ q2 ∙ q3) in
        let drawn : n ≡ s.drawn = sym f3 ∙ ap (λ (u : AuthDb). u.drawn) (sym (q1 ∙ q2)) in
        let rows : s.credentials ++ new_credential prim now u e p "user" s.drawn ∷ []
            ≡ s3.credentials ++ new_credential prim now u e p "user" n ∷ [] =
          rw (same, drawn) refl in
        (
          f1 ∙ ground arith,
          ap (λ k. account_of (new_credential prim now u e p "user" k)) (sym drawn)
              ∙ ap account_of f4
              ∙ f6,
          rows
              ∙ ap (λ (u : AuthDb). u.credentials) q4
              ∙ ap (λ (u : AuthDb). u.credentials) q5
              ∙ ap (λ (u : AuthDb). u.credentials) q6,
        )

-- What a login that succeeds has found.
login-eq-done :
    (prim : Primitives) (now : ℕ) (email password : Text) (s : AuthDb) {v : Session} {t : AuthDb}
    → login prim now email password s ≡ done v t
    → (c : Credential) × (find (λ d. d.email == email) s.credentials ≡ some c)
      × (c.active ≡ true)
      × (prim.compare password c.password_hash ≡ true)
unfolding login
login-eq-done prim now email password s {v} {t} h = after_done (gets _) _ h λ found s1 e1 h1.
    after_done _ _ h1 λ c s2 e2 h2. after_done _ _ h2 λ _ s3 e3 h3.
      let (f1, _) = gets-eq-done _ s s1 e1 in
      let (f2, active, _) = demand-eq-done found _ _ s1 s2 e2 in
      (c, f1 ∙ f2, active, (require-eq-done _ _ s2 s3 e3).0)

module _ (prim : Primitives) (fresh_id : (j k : ℕ) → prim.uuid j ≡ prim.uuid k → j ≡ k)
    (fresh_token : (j k : ℕ) → prim.hmac (prim.secret j) ≡ prim.hmac (prim.secret k) → j ≡ k) where
  -- Whoever has registered can log in with the address and the password of the registration, and gets a
  -- session of the new account, in a well-formed state, where identifiers and digests never repeat and a
  -- password fits its own hash.
  pub register-login :
      ((n : ℕ) (p : Text) → prim.compare p (prim.hash n p) ≡ true)
      → (now now' : ℕ) (username email password : Text) (s : AuthDb) {a : Account} {t : AuthDb}
      → IsWellFormed prim s
      → register prim now username email password s ≡ done a t
      → (session : Session) × (t' : AuthDb) × (login prim now' email password t ≡ done session t')
        × (session.user ≡ a)
  unfolding handle
  register-login compared now now' u e p s {a} {t} well h =
      let row = new_credential prim now u e p "user" s.drawn in
      let (free, account, rows) = register-eq-done prim now u e p s h in
      let well' : IsWellFormed prim t =
        rw (ap final h) at
          (handle-kept prim _ (IsWellFormed-IsStable prim) (register_user now u e p) s well) in
      let found : find (λ d. d.email == e) (s.credentials ++ row ∷ []) ≡ some row =
        find-append (λ (d : Credential). d.email == e) s.credentials row
          (find-none_of_any _ s.credentials (any_left s.credentials free)) ((==_iff e e).1 refl) in
      (
        _,
        _,
        login_ok prim fresh_id fresh_token now' e p t row well' (rw rows at found) refl
            (compared s.drawn p),
        account,
      )
    where
      any_left :
          (cs : List Credential)
          → any (λ c. c.email == e || c.username == u) cs ≡ false
          → any (λ c. c.email == e) cs ≡ false
      any_left [] h = refl
      any_left (c ∷ cs) h = ground (arith, any_left cs)

  -- The refresh token of a login gives, until it expires, a new access token for the same user with the same
  -- name and role, in a well-formed state where identifiers and digests never repeat.
  pub login-refresh :
      (now now' : ℕ) (email password : Text) (s : AuthDb) {v : Session} {t : AuthDb}
      → IsWellFormed prim s
      → login prim now email password s ≡ done v t
      → now' < now + prim.lifetime
      → (r : Renewal) × (t' : AuthDb) × (refresh prim now' v.refresh_token t ≡ done r t')
        × (r.access_token
            ≡ prim.sign now'
                (record { sub = v.user.id; username = v.user.username; role = v.user.role }))
  unfolding handle
  login-refresh now now' e p s {v} {t} well h soon =
      let (c, found, active, ok) = login-eq-done prim now e p s h in
      let full = login_ok prim fresh_id fresh_token now e p s c well found active ok in
      let row = new_token prim now c.id s.drawn in
      let session : Session = record {
        access_token = prim.sign now (claims_of c);
        refresh_token = prim.secret s.drawn;
        user = account_of c;
      } in
      let next : AuthDb = record s {
        refresh_tokens = s.refresh_tokens ++ row ∷ [];
        drawn = s.drawn + 1;
      } in
      let well' : IsWellFormed prim next =
        rw (ap final full) at
          (handle-kept prim _ (IsWellFormed-IsStable prim) (log_in now e p) s well) in
      let valid : is_valid_token prim now' (prim.secret s.drawn) row ≡ true =
        ground
          (arith, ==_iff (prim.hmac (prim.secret s.drawn)) (prim.hmac (prim.secret s.drawn))) in
      let stored : find (is_valid_token prim now' (prim.secret s.drawn)) next.refresh_tokens
          ≡ some row =
        find-append _ s.refresh_tokens row
          (not_valid row (prim.secret s.drawn) s.refresh_tokens refl (
            any-clash_of_issued prim fresh_id fresh_token now s.drawn c.id s.refresh_tokens
              well.known))
          valid in
      let renewed =
        refresh_ok prim fresh_id fresh_token now' (prim.secret s.drawn) next row c well' stored
          (find_by_id _ s.credentials well.accounts found) active in
      let run : ◌≡◌ {A = Run AuthDb Session} (done session next) (done v t) = sym full ∙ h in
      let same : session ≡ v = cc run in
      let left : next ≡ t = cc run in
      (
        _,
        _,
        ap (λ u. refresh prim now' v.refresh_token u) (sym left)
            ∙ ap (λ (x : Session). refresh prim now' x.refresh_token next) (sym same)
            ∙ renewed,
        ap
            (λ (x : Session).
              prim.sign now'
                (record { sub = x.user.id; username = x.user.username; role = x.user.role }))
            same,
      )
    where
      not_valid :
          (row : RefreshToken) (raw : String) (ts : List RefreshToken)
          → row.token ≡ prim.hmac raw
          → any (token_clash row) ts ≡ false
          → find (is_valid_token prim now' raw) ts ≡ none
      not_valid row raw [] d h = refl
      not_valid row raw (t ∷ ts) d h =
          ground (
            arith,
            not_valid row raw ts d,
            ==_iff t.token (prim.hmac raw),
            ==_iff row.token t.token,
          )
